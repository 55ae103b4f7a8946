-- ===== src/Dispatchd/Hub.antt =====
-- crates/m3-dispatchd/src/hub.rs: rings in, paced and coalesced wakes out. Each function is one
-- section under the hub's lock; `Dispatchd/Hub/Waiting.antt` composes them into `wait`, and
-- `Dispatchd/Hub/Moves.antt` has the notification that `ring` makes after its section. Instants and
-- durations are numbers; the counters are 64 bits wide in the program and unbounded here.
pub mod Trimming
pub mod Accounts
pub mod Waiting
pub mod Frames
pub mod Moves
pub mod Wakeup
pub mod Status
mod Tests
use m3_core_rs.Base.{
  ℕ, suc, ◌+◌, ◌-◌, Bool, true, false, not, ◌&&◌, ◌||◌, Option, none, some, List, [], ◌∷◌, ◌++◌,
  map, ltb, leb, ◌==◌, if◌then◌else◌, Text, length, any, keep, is_empty, head?, is_some, unwrap_or,
  lookup, insert, remove,
}
use m3_core_rs.Dispatchd.Addressing.{sees}
use m3_core_rs.Dispatchd.Keys.{newline, split_on, collect, key}

pub record Ring : Type 0 where
  pub seq : ℕ
  pub recipient : Text
  pub origin : Option Text
  pub rung_at : ℕ

pub record State : Type 0 where
  pub seq : ℕ
  pub log : List Ring
  pub cursors : List (Text × ℕ)
  pub waiting : List (Text × ℕ)
  pub wakes : List (Text × ℕ)
  pub lost : List (Text × ℕ)

pub data Wake : Type 0 where
  mail : ℕ → List Text → List Text → Wake
  resync timeout : Wake

-- The hub's settings; its lock guards a `State`.
pub record Hub : Type 0 where
  pub window : ℕ
  pub keep_for : ℕ
  pub max_log : ℕ

unfoldable pub new : ℕ → ℕ → Hub
new window keep_for = record { window = window; keep_for = keep_for; max_log = 100_000 }

unfoldable pub empty : State
empty = record { seq = 0; log = []; cursors = []; waiting = []; wakes = []; lost = [] }

abbrev pub count_of : Text → List (Text × ℕ) → ℕ
count_of k m = unwrap_or (lookup k m) 0

-- `*m.entry(k).or_default() += 1`.
unfoldable pub bump : Text → List (Text × ℕ) → List (Text × ℕ)
bump k m = insert k (count_of k m + 1) m

-- Whether a reader set with this cursor has yet to hear of a ring.
abbrev pub unheard : ℕ → List Text → Ring → Bool
unheard cursor readers r = ltb cursor r.seq && any (λ rd. sees rd r.recipient) readers

abbrev pub matching : ℕ → List Text → List Ring → List Ring
matching cursor readers = keep (unheard cursor readers)

-- The loop over the recipients in `ring`; empty ones are skipped.
unfoldable pub push_rings : Option Text → ℕ → List Text → State → State
push_rings origin now [] st = st
push_rings origin now (r ∷ rs) st = push_rings origin now rs (
    if is_empty r then st else record st {
      seq = st.seq + 1;
      log =
          st.log ++ record { seq = st.seq + 1; recipient = r; origin = origin; rung_at = now } ∷ [];
    })

-- The loop over the cursors in `ring`, at a trimmed ring.
unfoldable pub mark_lost : Ring → List (Text × ℕ) → List (Text × ℕ) → List (Text × ℕ)
mark_lost gone [] lost = lost
mark_lost gone ((k, cursor) ∷ cs) lost =
    mark_lost gone cs (if unheard cursor (split_on newline k) gone then bump k lost else lost)

-- The trimming loop of `ring`: the log that is left, and the marks.
unfoldable pub trim :
    Hub → ℕ → List (Text × ℕ) → List Ring → List (Text × ℕ) → List Ring × List (Text × ℕ)
unfolding mark_lost
trim h now cursors [] lost = ([], lost)
trim h now cursors (r ∷ rs) lost =
    let rest = trim h now cursors rs (mark_lost r cursors lost) in
    if ltb h.max_log (length (r ∷ rs)) || ltb h.keep_for (now - r.rung_at)
    then rest
    else (r ∷ rs, lost)

trimmed : Hub → ℕ → State → State
unfolding trim
trimmed h now st =
    let (log, lost) = trim h now st.cursors st.log st.lost in record st { log = log; lost = lost }

-- The count of rings is that of the non-empty recipients.
abbrev pub named : List Text → List Text
named = keep (λ r. not (is_empty r))

unfoldable pub ring : Hub → ℕ → List Text → Option Text → State → State × ℕ
unfolding push_rings trimmed
ring h now recipients origin st =
    (trimmed h now (push_rings origin now recipients st), length (named recipients))

-- `Some(())` stands for `true`: the cursor has moved to now, and the answer is `Resync`.
unfoldable pub resync_if_lost : State → Text → Option State
resync_if_lost st k = elim (lookup k st.lost) [
  | none ↦ none
  | some n ↦ some (record st { lost = remove k st.lost; cursors = insert k st.seq st.cursors })
]

-- The first section of `wait`: an answer at once, or the key that waits.
pub data Entry : Type 0 where
  answered : Wake → Entry
  admitted : Text → Entry

admit : Text → State → Option State → State × Entry
admit k st none = (record st { waiting = bump k st.waiting }, admitted k)
admit k st (some st') = (st', answered resync)

register : Text → State → Option ℕ → State × Entry
unfolding admit
register k st none = (record st { cursors = insert k st.seq st.cursors }, answered resync)
register k st (some cursor) = admit k st (resync_if_lost st k)

unfoldable pub enter : List Text → State → State × Entry
unfolding register
enter readers st =
    let k = key readers in
    if is_empty k then (st, answered timeout) else register k st (lookup k st.cursors)

-- The last section of `wait`: `saturating_sub` where an entry exists.
unfoldable pub leave : Text → State → State
leave k st = elim (lookup k st.waiting) [
  | none ↦ st
  | some n ↦ record st { waiting = insert k (n - 1) st.waiting }
]

unfoldable pub first_match : Text → List Text → State → Option ℕ
first_match k readers st = elim (head? (matching (count_of k st.cursors) readers st.log)) [
  | none ↦ none
  | some r ↦ some r.rung_at
]

unfoldable pub last_seq : ℕ → List Ring → ℕ
last_seq cursor [] = cursor
last_seq cursor (r ∷ rs) = last_seq r.seq rs

unfoldable pub origins_of : List Ring → List Text
origins_of [] = []
origins_of (r ∷ rs) = elim r.origin [ none ↦ origins_of rs | some o ↦ o ∷ origins_of rs ]

collected : Text → ℕ → List Ring → State → State × Wake
unfolding last_seq origins_of
collected k cursor [] st = (st, timeout)
collected k cursor (r ∷ rs) st = (
  record st { cursors = insert k (last_seq cursor (r ∷ rs)) st.cursors; wakes = bump k st.wakes },
  mail (length (r ∷ rs)) (collect (map (λ q. q.recipient) (r ∷ rs)))
      (collect (origins_of (r ∷ rs))),
)

take_known : Text → List Text → State → Option State → State × Wake
unfolding collected
take_known k readers st (some st') = (st', resync)
take_known k readers st none =
    let cursor = count_of k st.cursors in collected k cursor (matching cursor readers st.log) st

unfoldable pub take : Text → List Text → State → State × Wake
unfolding take_known
take k readers st = take_known k readers st (resync_if_lost st k)

-- One row of the daemon's status: a reader set's pending rings and since when, its connected
-- waiters, its wakes and its trimmed rings.
pub record Row : Type 0 where
  pub pending : ℕ
  pub oldest_pending : Option ℕ
  pub connected : ℕ
  pub wakes : ℕ
  pub aged_out : ℕ

abbrev age : ℕ → Option Ring → Option ℕ
age now none = none
age now (some r) = some (now - r.rung_at)

row : ℕ → State → Text → ℕ → Row
row now st k cursor =
    let pending = matching cursor (split_on newline k) st.log in
    record {
      pending = length pending;
      oldest_pending = age now (head? pending);
      connected = count_of k st.waiting;
      wakes = count_of k st.wakes;
      aged_out = count_of k st.lost;
    }

-- `key.replace('\n', ",")`.
unfoldable pub commas : Text → Text
commas = map (λ c. if c == newline then b',' else c)

-- The loop of `status`, into a JSON object: a later row replaces one of the same name.
rows : ℕ → State → List (Text × ℕ) → List (Text × Row) → List (Text × Row)
unfolding row
rows now st [] out = out
rows now st ((k, cursor) ∷ cs) out = rows now st cs (insert (commas k) (row now st k cursor) out)

unfoldable pub status : ℕ → State → List (Text × Row)
unfolding rows commas
status now st = rows now st st.cursors []
