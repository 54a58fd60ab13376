-- ===== src/Journal/Dedup.antt =====
-- The removal of duplicates in `Replay`: the last entry of an id stands, at the place of the first.
use kairos_agent.Base.{
  ℕ, zero, suc, String, ◌≡◌, refl, sym, ap, ◌∙◌, ◌⊎◌, true, false, Option, none, some, List, [],
  ◌∷◌, ◌++◌, arith, str_eq, str_eq_iff, if◌then◌else◌, is_some, Bool-cases, Option-cases,
}
use kairos_agent.Base.Lists.{length}
use kairos_agent.Base.Dict.{lookup, lookup-insert}
use kairos_agent.Journal.{Entry}
use kairos_agent.Journal.Replay.{Replayed, set_at, placed, replay_entry}

-- The entry of an id, by a walk over the entries.
unfoldable pub find_id : String → List Entry → Option Entry
find_id id [] = none
find_id id (e ∷ rest) =
    let later = find_id id rest in if str_eq e.client_order_id id then some e else later

-- The last of the entries with an id.
unfoldable pub last_with : String → List Entry → Option Entry → Option Entry
last_with id [] found = found
last_with id (e ∷ rest) found =
    last_with id rest (if str_eq e.client_order_id id then some e else found)

-- The position of the first entry with an id.
abbrev later_by : Option ℕ → Option ℕ
later_by none = none
later_by (some i) = some (suc i)

unfoldable pub index_of : String → List Entry → Option ℕ
index_of id [] = none
index_of id (e ∷ rest) =
    let later = index_of id rest in if str_eq e.client_order_id id then some 0 else later_by later

abbrev pub IsIndexed : Replayed → String → Type 0
IsIndexed r id = lookup id r.indexes ≡ index_of id r.entries

index_of-set_at :
    (i : ℕ) (e : Entry) (l : List Entry) (id : String)
    → index_of e.client_order_id l ≡ some i
    → index_of id (set_at i e l) ≡ index_of id l
unfolding index_of set_at
index_of-set_at i e [] id found = ground arith
index_of-set_at zero e (x ∷ rest) id found = ground (
  arith,
  Option-cases (index_of e.client_order_id rest),
  str_eq_iff x.client_order_id e.client_order_id,
)
index_of-set_at (suc i) e (x ∷ rest) id found =
    ground (arith, Option-cases (index_of e.client_order_id rest), index_of-set_at i e rest id)

find_id-set_at :
    (i : ℕ) (e : Entry) (l : List Entry) (id : String)
    → index_of e.client_order_id l ≡ some i
    → find_id id (set_at i e l) ≡ (if str_eq e.client_order_id id then some e else find_id id l)
unfolding index_of set_at find_id
find_id-set_at i e [] id found = ground arith
find_id-set_at zero e (x ∷ rest) id found = ground (
  arith,
  Option-cases (index_of e.client_order_id rest),
  str_eq_iff x.client_order_id e.client_order_id,
)
find_id-set_at (suc i) e (x ∷ rest) id found = ground (
  arith,
  Option-cases (index_of e.client_order_id rest),
  str_eq_iff x.client_order_id e.client_order_id,
  str_eq_iff x.client_order_id id,
  str_eq_iff e.client_order_id id,
  find_id-set_at i e rest id,
)

index_of-append :
    (e : Entry) (l : List Entry) (id : String)
    → index_of id (l ++ (e ∷ [])) ≡ (
        if is_some (index_of id l)
        then index_of id l
        else if str_eq e.client_order_id id
        then some (length l)
        else none)
unfolding index_of
index_of-append e [] id = refl
index_of-append e (x ∷ rest) id =
    ground (arith, Option-cases (index_of id rest), index_of-append e rest id)

find_id-append :
    (e : Entry) (l : List Entry) (id : String)
    → find_id id (l ++ (e ∷ [])) ≡ (
        if is_some (index_of id l)
        then find_id id l
        else if str_eq e.client_order_id id
        then some e
        else none)
unfolding index_of find_id
find_id-append e [] id = refl
find_id-append e (x ∷ rest) id =
    ground (arith, Option-cases (index_of id rest), find_id-append e rest id)

find_id-none : (l : List Entry) (id : String) → index_of id l ≡ none → find_id id l ≡ none
unfolding index_of find_id
find_id-none [] id h = refl
find_id-none (x ∷ rest) id h = ground (arith, Option-cases (index_of id rest), find_id-none rest id)

find_id-placed :
    (e : Entry) (r : Replayed) (id : String) (found : Option ℕ)
    → index_of e.client_order_id r.entries ≡ found
    → find_id id (placed e found r).entries
      ≡ (if str_eq e.client_order_id id then some e else find_id id r.entries)
find_id-placed e r id (some i) found = find_id-set_at i e r.entries id found
find_id-placed e r id none found = ground (
  arith,
  str_eq_iff e.client_order_id id,
  Option-cases (index_of id r.entries),
  find_id-append e r.entries id,
  find_id-none r.entries id,
)

find_id-replay_entry :
    (e : Entry) (r : Replayed) (id : String)
    → str_eq id "" ≡ false
    → IsIndexed r e.client_order_id ⊎ (str_eq e.client_order_id "" ≡ true)
    → find_id id (replay_entry e r).entries
      ≡ (if str_eq e.client_order_id id then some e else find_id id r.entries)
unfolding replay_entry
find_id-replay_entry e r id named indexed = ground (
  arith,
  str_eq_iff e.client_order_id "",
  str_eq_iff e.client_order_id id,
  str_eq_iff id "",
  Option-cases (index_of id r.entries),
  find_id-append e r.entries id,
  find_id-none r.entries id,
  find_id-placed e r id (lookup e.client_order_id r.indexes),
)

placed-IsIndexed :
    (e : Entry) (r : Replayed) (k : String) (found : Option ℕ)
    → index_of e.client_order_id r.entries ≡ found
    → IsIndexed r k
    → IsIndexed (placed e found r) k
placed-IsIndexed e r k (some i) found indexed =
    indexed ∙ sym (index_of-set_at i e r.entries k found)
placed-IsIndexed e r k none found indexed = ground (
  arith,
  str_eq_iff e.client_order_id k,
  Option-cases (index_of k r.entries),
  index_of-append e r.entries k,
  lookup-insert e.client_order_id k (length r.entries) r.indexes,
)

replay_entry-IsIndexed :
    (e : Entry) (r : Replayed)
    → ((k : String) → str_eq k "" ≡ false → IsIndexed r k)
    → (k : String) → str_eq k "" ≡ false
    → IsIndexed (replay_entry e r) k
unfolding replay_entry
replay_entry-IsIndexed e r indexed k named = ground (
  arith,
  str_eq_iff e.client_order_id "",
  str_eq_iff e.client_order_id k,
  str_eq_iff k "",
  Option-cases (index_of k r.entries),
  index_of-append e r.entries k,
  indexed k named,
  indexed e.client_order_id,
  placed-IsIndexed e r k (lookup e.client_order_id r.indexes),
)

-- The scanned entries, one after another.
unfoldable pub replay_all : List Entry → Replayed → Replayed
replay_all [] r = r
replay_all (e ∷ rest) r = replay_all rest (replay_entry e r)

pub find_id-replay_all :
    (l : List Entry) (r : Replayed) (id : String)
    → ((k : String) → str_eq k "" ≡ false → IsIndexed r k)
    → str_eq id "" ≡ false
    → find_id id (replay_all l r).entries ≡ last_with id l (find_id id r.entries)
unfolding replay_all last_with
find_id-replay_all [] r id indexed named = refl
find_id-replay_all (e ∷ rest) r id indexed named =
    find_id-replay_all rest (replay_entry e r) id (replay_entry-IsIndexed e r indexed) named
    ∙ ap (last_with id rest) (
        find_id-replay_entry e r id named
          (ground (arith, Bool-cases (str_eq e.client_order_id ""), indexed e.client_order_id)))

-- Whatever entries are scanned, in whatever order of duplicates, the replay returns for every id that is
-- not empty the last entry that was scanned with this id, and none if there was none.
pub replay_keeps_last :
    (l : List Entry) (id : String)
    → str_eq id "" ≡ false
    → find_id id (replay_all l (record { indexes = []; entries = [] })).entries
      ≡ last_with id l none
unfolding find_id index_of lookup
replay_keeps_last l id named =
    find_id-replay_all l (record { indexes = []; entries = [] }) id (λ k n. refl) named
