-- ===== src/Blacklist.antt =====
-- internal/blacklist/store.go: hosts that are never dialed. The memory map is the state; the SQL
-- database is not modelled: its answers are arguments, the statements sent to it are listed.
use unified_proxy_pool.Base.{
  ℕ, ◌+◌, ◌*◌, Bool, true, false, ◌||◌, List, [], ◌∷◌, arith, ltb, if◌then◌else◌, Text, codes,
  is_empty, to_lower, trim_space, before_last, after_first, before_first, Option, none, some, Time,
  second, is_zero, Dict, lookup, insert, erase, ℤ, is_le_zero, to_nat,
}
pub mod Laws
mod Tests

pub record Entry : Type 0 where
  pub host : Text
  pub reason : Text
  pub until : Option Time
  pub created_at : Time

-- The statements that the store executes.
pub data Statement : Type 0 where
  upsert : Text → Text → Option Time → Time → Statement
  delete_like : Text → Text → Statement

-- `mem` has the end of each ban, the zero time for one without an end.
pub record Store : Type 0 where
  pub mem : Dict Time
  pub has_db : Bool
  pub statements : List Statement

unfoldable pub normalize_host : Text → Text
unfolding to_lower trim_space after_first before_first
normalize_host v =
    let low = trim_space (to_lower v) in before_first b'/' (after_first (codes "://") low low)

unfoldable pub host_key : Text → Text
unfolding normalize_host
host_key v = normalize_host v

-- `h[:i]` for the last colon at `i > 0`, else `h`.
unfoldable pub without_port : Text → Text
unfolding before_last
without_port h = elim (before_last b':' h) [ none ↦ h | some [] ↦ h | some (c ∷ s) ↦ c ∷ s ]

unfoldable pub bare_host : Text → Text
unfolding without_port host_key
bare_host v = without_port (host_key v)

unfoldable pub is_live : Time → Option Time → Bool
is_live now none = false
is_live now (some until) = is_zero until || ltb now until

unfoldable pub blocked : Store → Text → Time → Bool
unfolding is_live
blocked s addr now =
    is_live now (lookup (host_key addr) s.mem) || is_live now (lookup (bare_host addr) s.mem)

pub data AddResult : Type 0 where
  added : Entry → AddResult
  invalid_host : AddResult
  exec_failed : AddResult

unfoldable pub until_of : ℤ → Time → Option Time
until_of ttl_sec now = if is_le_zero ttl_sec then none else some (now + to_nat ttl_sec * second)

unfoldable pub or_zero : Option Time → Time
or_zero none = 0
or_zero (some t) = t

-- `fails` is whether the database refuses the statement; without a database it is not asked.
unfoldable pub add : Text → Text → ℤ → Bool → Time → Store → Store × AddResult
unfolding until_of or_zero
add v reason ttl_sec fails now s =
    let host = host_key v in
    let until = until_of ttl_sec now in
    let sent =
      (if s.has_db
        then record s { statements = upsert host reason until now ∷ s.statements }
        else s) in
    if is_empty host
    then (s, invalid_host)
    else if (if s.has_db then fails else false)
    then (sent, exec_failed)
    else (
      record sent { mem = insert host (or_zero until) s.mem },
      added (record { host = host; reason = reason; until = until; created_at = now }),
    )

unfoldable pub remove : Text → Store → Store
remove v s =
    let host = host_key v in
    record s {
      mem = erase (bare_host host) (erase host s.mem);
      statements =
          if s.has_db then delete_like host (bare_host host) ∷ s.statements else s.statements;
    }

-- A row of the table; the scan of a malformed row is `none`.
pub record Row : Type 0 where
  pub host : Text
  pub until : Option Time

unfoldable pub has_ended : Time → Option Time → Bool
has_ended now none = false
has_ended now (some t) = ltb t now

unfoldable pub load_rows : Time → List (Option Row) → Dict Time → Dict Time
unfolding has_ended or_zero normalize_host
load_rows now [] mem = mem
load_rows now (none ∷ rows) mem = load_rows now rows mem
load_rows now (some row ∷ rows) mem = load_rows now rows (
    if is_empty (normalize_host row.host) || has_ended now row.until
    then mem
    else insert (normalize_host row.host) (or_zero row.until) mem)

-- `rows` is the answer of the query, none for an error.
unfoldable pub reload : Option (List (Option Row)) → Time → Store → Store
unfolding load_rows
reload none now s = s
reload (some rows) now s = if s.has_db then record s { mem = load_rows now rows [] } else s
