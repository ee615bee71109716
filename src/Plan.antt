-- ===== src/Plan.antt =====
-- plan.go: the plan handle, its paths, the full export and the delta read that keeps a cursor. `D`
-- is the decoded plan detail; a decoder of the export's payload stands for encoding/json.
pub mod Delta
pub mod Outcome
mod Tests
use ynab_go.Base.{
  ℕ, ◌≡◌, Bool, true, false, not, ◌&&◌, Option, none, some, List, [], ◌∷◌, ◌++◌, Bytes, codes,
  bytes_eq, is_nil, if◌then◌else◌,
}
use ynab_go.Base.Int.{ℤ, pos, eqb_ℤ}
use ynab_go.Std.Url.{Values, set}
use ynab_go.Errors.{ArgumentError, WireError}
use ynab_go.Transport.{Environment}
use ynab_go.Transport.Path.{join_path}
use ynab_go.Client.{Client}
use ynab_go.Client.Call.{
  Result, success, argument_error, encode_error, attempt_error, canceled_error, api_error,
  decode_error, Call, Envelope, nil_body, call,
}
use ynab_go.Sync.{ServerKnowledge, ListOption, since, apply_list_options, SyncState}

-- `Plan.path`.
unfoldable pub path : Bytes → List Bytes → Bytes
path id segments = join_path (codes "plans" ∷ id ∷ segments)

-- `PlansOption`: IncludeAccounts, and the zero option.
pub data PlansOption : Type 0 where
  include_accounts : PlansOption
  no_plans_option : PlansOption

-- The query of `Plans`.
unfoldable pub plans_query : Values → List PlansOption → Values
plans_query q [] = q
plans_query q (include_accounts ∷ opts) =
    plans_query (set (codes "include_accounts") (codes "true") q) opts
plans_query q (no_plans_option ∷ opts) = plans_query q opts

-- The payload of getPlanById.
pub record Exported (D : Type 0) : Type 0 where
  pub plan : Option D
  pub server_knowledge : ServerKnowledge

-- What Delta leaves in *st, and what it returns.
pub record DeltaCall (E : Type 0) (D : Type 0) : Type 0 where
  pub state : Option SyncState
  pub returned : Call E (Option D)

-- The guards of `Delta` on the state's plan id and cursor.
unfoldable pub delta_guard : Bytes → SyncState → Option ArgumentError
delta_guard id st =
    if not (is_nil st.plan_id) && not (bytes_eq st.plan_id id)
    then some (record {
      op = codes "Plan.Delta";
      field = codes "st";
      reason = codes "sync state belongs to plan " ++ (st.plan_id ++ (codes ", not " ++ id));
    })
    else if is_nil st.plan_id && not (eqb_ℤ st.plan (pos 0))
    then some (record {
      op = codes "Plan.Delta";
      field = codes "st";
      reason =
          codes "sync state carries a cursor but no plan id "
          ++ (226 ∷ 128 ∷ 148 ∷ codes " it cannot be attributed to this plan");
    })
    else none

-- The options that `Delta` hands to `Export`.
unfoldable pub delta_options : SyncState → List ListOption
delta_options st = if eqb_ℤ st.plan (pos 0) then [] else since st.plan ∷ []

module _ {E : Type 0} {D : Type 0} where
  -- What `Delta` returns of an export.
  unfoldable pub detail : Result E (Exported D) → Result E (Option D)
  detail (success v) = success v.plan
  detail (argument_error e) = argument_error e
  detail encode_error = encode_error
  detail (attempt_error x) = attempt_error x
  detail (canceled_error e) = canceled_error e
  detail (api_error e) = api_error e
  detail decode_error = decode_error

module _ {E : Type 0} {D : Type 0} (wire : Bytes → Option WireError)
    (envelope : Bytes → Envelope (Exported D)) where
  -- `Export`, before its two results are taken apart.
  unfoldable pub export : Client → Environment E → Bytes → List ListOption → Call E (Exported D)
  export c env id opts =
      call wire envelope c env (codes "GET") (join_path (codes "plans" ∷ id ∷ []))
        (apply_list_options [] opts) nil_body

  -- The new state: the plan's id and cursor move on success only.
  unfoldable pub advance : Bytes → SyncState → Result E (Exported D) → SyncState
  advance id st (success v) = record st { plan_id = id; plan = v.server_knowledge }
  advance id st _ = st

  -- `Delta`.
  unfoldable pub delta : Client → Environment E → Bytes → Option SyncState → DeltaCall E D
  unfolding export advance detail
  delta c env id none = record {
    state = none;
    returned = record {
      trace = [];
      result = argument_error (record {
        op = codes "Plan.Delta";
        field = codes "st";
        reason = codes "sync state must not be nil";
      });
    };
  }
  delta c env id (some st) = elim (delta_guard id st) [
    | some e ↦ record {
      state = some st;
      returned = record { trace = []; result = argument_error e };
    }
    | none ↦
        let made = export c env id (delta_options st) in
        record {
          state = some (advance id st made.result);
          returned = record { trace = made.trace; result = detail made.result };
        }
  ]
