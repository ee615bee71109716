-- ===== src/Transport/Delay.antt =====
-- internal/transport/retry.go: RetryAfterDelay and retryDelay.
pub mod Bounds
use ynab_go.Base.{
  ℕ, zero, suc, ◌+◌, ◌-◌, ◌*◌, ◌/◌, ◌^◌, Bool, true, false, ◌&&◌, ◌||◌, Option, none, some, List,
  [], ◌∷◌, ◌++◌, Bytes, codes, bytes_eq, ◌==◌, ltb, leb, if◌then◌else◌, is_nil,
}
use ynab_go.Base.Int.{ℤ, pos, negsuc, pos_part, ◌+ℤ◌, ◌-ℤ◌, ◌*ℤ◌, ltb_ℤ, leb_ℤ, min_ℤ, max_ℤ}
use ynab_go.Base.Word.{wrap}
use ynab_go.Std.Strconv.{parse_int}
use ynab_go.Transport.{Duration, second, max_int64, Clock, RetryConfig, Response}

-- time.Until, which saturates.
unfoldable pub until : ℤ → ℤ → Duration
until now t =
    let d = t -ℤ now in
    if ltb_ℤ (pos max_int64) d
    then pos max_int64
    else if ltb_ℤ d (negsuc max_int64)
    then negsuc max_int64
    else d

-- The delay of an HTTP date, 0 for a text that is none or a time that is past.
unfoldable pub date_delay : ℤ → Option ℤ → Duration
unfolding until
date_delay now none = pos 0
date_delay now (some t) = let d = until now t in if ltb_ℤ (pos 0) d then d else pos 0

-- The delay of a number of seconds, or else of a date.
unfoldable pub seconds_delay : Option ℤ → Duration → Duration
seconds_delay none date = date
seconds_delay (some secs) date =
    if leb_ℤ (pos 0) secs
    then if ltb_ℤ (pos (max_int64 / second)) secs then pos max_int64 else wrap (secs *ℤ pos second)
    else date

unfoldable pub retry_after_delay : Clock → Bytes → Duration
retry_after_delay clock v =
    if is_nil v
    then pos 0
    else seconds_delay (parse_int v) (date_delay clock.now (clock.parse_time v))

abbrev pub minute : Duration
minute = pos 60_000_000_000

unfoldable pub retry_after_cap : RetryConfig → Duration
retry_after_cap r = max_ℤ r.max_backoff minute

-- Go's `>>` and `<<` on an int64.
unfoldable pub shift_right : ℤ → ℕ → ℤ
shift_right (pos a) i = pos (a / 2 ^ i)
shift_right (negsuc a) i = negsuc (a / 2 ^ i)

unfoldable pub shift_left : ℤ → ℕ → ℤ
shift_left a i = wrap (a *ℤ pos (2 ^ i))

-- MinBackoff doubled i times, or MaxBackoff where that is smaller or would overflow.
unfoldable pub doubled : Duration → Duration → ℕ → Duration
unfolding shift_right shift_left
doubled lo hi i = if ltb i 63 && leb_ℤ lo (shift_right hi i) then shift_left lo i else hi

-- The upper end of the jitter's interval.
unfoldable pub backoff_upper : RetryConfig → ℕ → Duration
backoff_upper r i = doubled r.min_backoff r.max_backoff i

-- A wait of at least `lo` and, where there is room, below `upper`.
unfoldable pub jittered : (Duration → Duration) → Duration → Duration → Duration
jittered jitter lo upper = if leb_ℤ upper lo then lo else wrap (lo +ℤ jitter (wrap (upper -ℤ lo)))

-- The jittered wait before retry i.
unfoldable pub backoff : RetryConfig → (Duration → Duration) → ℕ → Duration
unfolding backoff_upper
backoff r jitter i = jittered jitter r.min_backoff (backoff_upper r i)

abbrev pub too_many_requests : ℕ
too_many_requests = 429

abbrev pub retry_after_key : Bytes
retry_after_key = codes "Retry-After"

-- `retryDelay`: a positive Retry-After of a 429, capped, or else the backoff.
unfoldable pub retry_delay : RetryConfig → Clock → (Duration → Duration) → ℕ → Response → Duration
unfolding retry_after_cap
retry_delay r clock jitter i last =
    let d = retry_after_delay clock (last.header retry_after_key) in
    if last.status == too_many_requests && ltb_ℤ (pos 0) d
    then min_ℤ d (retry_after_cap r)
    else backoff r jitter i
