-- ===== src/Client/Call.antt =====
-- transport.go and envelope.go: Do, DoRaw and decodeData; plan.go: the funnel `do`, and client.go:
-- RawDo. A decoder of the success envelope and one of the error envelope stand for encoding/json at
-- the operation's types; `T` is the type of the payload.
pub mod Guard
pub mod Endings
pub mod Recovery
mod Tests
use ynab_go.Base.{
  ℕ, zero, suc, ◌≤◌, ◌≡◌, Bool, true, false, ◌&&◌, ◌||◌, not, Option, none, some, List, [], ◌∷◌,
  ◌++◌, Bytes, codes, ltb, ◌==◌, if◌then◌else◌, is_nil,
}
use ynab_go.Std.Strings.{has_suffix, contains}
use ynab_go.Std.Url.{Values}
use ynab_go.Errors.{ArgumentError, ApiError, WireError, decode_wire_error}
use ynab_go.Transport.{Core, Response, Failure, Environment}
use ynab_go.Transport.Pipeline.{Event, Ending, answered, aborted, canceled, Run, execute}
use ynab_go.Client.{Client, core}

-- How a call ends for its caller.
pub data Result (E : Type 0) (T : Type 0) : Type 0 where
  success : T → Result E T
  argument_error : ArgumentError → Result E T
  encode_error : Result E T
  attempt_error : Failure E → Result E T
  canceled_error : E → Result E T
  api_error : ApiError → Result E T
  decode_error : Result E T

-- What a call did on the wire, and how it ended.
pub record Call (E : Type 0) (T : Type 0) : Type 0 where
  pub trace : List Event
  pub result : Result E T

-- A success envelope as json.Unmarshal leaves it: an error, no data key, or the payload.
pub data Envelope (T : Type 0) : Type 0 where
  malformed : Envelope T
  no_data : Envelope T
  payload_of : T → Envelope T

unfoldable pub is_success : ℕ → Bool
is_success status = not (ltb status 200 || ltb 299 status)

-- A request body: nil, or a value that json.Marshal encodes or refuses.
pub data Payload : Type 0 where
  nil_body : Payload
  encoded : Bytes → Payload
  unencodable : Payload

module _ {E : Type 0} {T : Type 0} where
  abbrev no_io : Result E T → Call E T
  no_io r = record { trace = []; result = r }

  -- `decodeData`.
  unfoldable pub decode_data : Envelope T → Result E T
  decode_data malformed = decode_error
  decode_data no_data = decode_error
  decode_data (payload_of v) = success v

  -- The end of Do and DoRaw: a status other than 2xx goes to the error decoder.
  unfoldable pub finish :
      (Bytes → Option WireError) → Environment E → (Bytes → Result E T) → Ending E → Result E T
  finish wire env read (answered res) =
      if is_success res.status
      then read res.body
      else api_error (decode_wire_error wire env.clock res.status res.body res.header)
  finish wire env read (aborted f) = attempt_error f
  finish wire env read (canceled e) = canceled_error e

  unfoldable pub run_request :
      (Bytes → Option WireError)
      → Core
      → Environment E
      → (Bytes → Result E T)
      → Bytes
      → Bytes
      → Values
      → Option Bytes
      → Call E T
  unfolding finish
  run_request wire core env read method path query body =
      let run = execute core env method path query body in
      record { trace = run.trace; result = finish wire env read run.ending }

  -- transport.Do.
  unfoldable pub transport_do :
      (Bytes → Option WireError)
      → (Bytes → Envelope T)
      → Core
      → Environment E
      → Bytes
      → Bytes
      → Values
      → Payload
      → Call E T
  unfolding decode_data run_request
  transport_do wire envelope core env method path query nil_body =
      run_request wire core env (λ b. decode_data (envelope b)) method path query none
  transport_do wire envelope core env method path query (encoded p) =
      run_request wire core env (λ b. decode_data (envelope b)) method path query (some p)
  transport_do wire envelope core env method path query unencodable = no_io encode_error

-- The guard of `do`: a path that an empty id argument has collapsed.
unfoldable pub is_collapsed : Bytes → Bool
is_collapsed path = is_nil path || (has_suffix b'/' path || contains (codes "//") path)

module _ {E : Type 0} {T : Type 0} where
  -- `do`.
  unfoldable pub call :
      (Bytes → Option WireError)
      → (Bytes → Envelope T)
      → Client
      → Environment E
      → Bytes
      → Bytes
      → Values
      → Payload
      → Call E T
  call wire envelope c env method path query body = elim c.config_err [
    | some e ↦ record { trace = []; result = argument_error e }
    | none ↦
        if is_collapsed path
        then record {
          trace = [];
          result = argument_error (record {
            op = method ++ b' ' ∷ path;
            field = [];
            reason = codes "an id argument is empty";
          });
        }
        else transport_do wire envelope (core c) env method path query body
  ]

module _ {E : Type 0} where
  -- transport.DoRaw.
  pub do_raw :
      (Bytes → Option WireError)
      → Core
      → Environment E
      → Bytes
      → Bytes
      → Values
      → Option Bytes
      → Call E Bytes
  unfolding run_request
  do_raw wire core env method path query body =
      run_request wire core env (λ b. success b) method path query body

  -- `RawDo`: no guard on the path.
  pub raw_do :
      (Bytes → Option WireError)
      → Client
      → Environment E
      → Bytes
      → Bytes
      → Values
      → Option Bytes
      → Call E Bytes
  raw_do wire c env method path query body = elim c.config_err [
    | some e ↦ record { trace = []; result = argument_error e }
    | none ↦ do_raw wire (core c) env method path query body
  ]
