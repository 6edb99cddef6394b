-- ===== src/Driver/Guard/Exclusion.antt =====
-- The calls that run, whatever the interleaving of their accesses to the map and their ends.
use datera_csi.Base.{
  String, ℕ, suc, ◌+◌, ◌≤◌, ◌≡◌, refl, true, false, List, [], ◌∷◌, arith, str_eq, eq_iff, eq_refl,
  Bool-cases, inl, inr, if◌then◌else◌,
}
use datera_csi.Base.Go.{Action}
use datera_csi.Driver.Guard.{World, in_progress, enter, clean, init_func, guarded}

-- The map of the driver, the calls that have found their key free and have not entered it yet, and the
-- calls whose bodies run.
pub record Calls : Type 0 where
  pub rpc_status : List String
  pub pending : List String
  pub running : List String

-- How many of the calls have the key.
unfoldable pub occurrences : String → List String → ℕ
occurrences key [] = 0
occurrences key (k ∷ ks) = let rest = occurrences key ks in if str_eq k key then suc rest else rest

-- One call with the key is taken off.
unfoldable pub remove_one : String → List String → List String
remove_one key [] = []
remove_one key (k ∷ ks) = let rest = remove_one key ks in if str_eq k key then ks else k ∷ rest

-- The states that the calls of `InitFunc` and their ends can lead to, each access of the map being one
-- step: a call finds its key free, it enters the key and its body runs, or a running call ends and its
-- cleaner takes the key from the map. A call that is refused changes nothing. `P` says when a call may
-- come to its test.
pub data Reach (P : String → Calls → Type 0) : Calls → Type 0 where
  idle : Reach P (record { rpc_status = []; pending = []; running = [] })
  tests :
      {c : Calls} (key : String)
      → Reach P c
      → P key c
      → in_progress key c.rpc_status ≡ false
      → Reach P (record c { pending = key ∷ c.pending })
  enters :
      {c : Calls} (key : String)
      → Reach P c
      → in_progress key c.pending ≡ true
      → Reach P (record {
        rpc_status = enter key c.rpc_status;
        pending = remove_one key c.pending;
        running = key ∷ c.running;
      })
  ends :
      {c : Calls} (key : String)
      → Reach P c
      → in_progress key c.running ≡ true
      → Reach P
          (record c { rpc_status = clean key c.rpc_status; running = remove_one key c.running })

-- A call comes at any time.
abbrev pub Anytime : String → Calls → Type 0
Anytime key c = Unit

-- No call with the key is between its test and its entry.
abbrev pub Alone : String → Calls → Type 0
Alone key c = in_progress key c.pending ≡ false

-- The map holds the keys of the running calls; the calls that run or are about to have each a key of
-- their own.
record Exclusive (c : Calls) : Type 0 where
  single : (key : String) → occurrences key c.pending + occurrences key c.running ≤ 1
  agrees : (key : String) → in_progress key c.rpc_status ≡ in_progress key c.running

in_progress-clean :
    (j k : String) (l : List String)
    → in_progress j (clean k l) ≡ (if str_eq k j then false else in_progress j l)
unfolding in_progress clean
in_progress-clean j k [] = ground arith
in_progress-clean j k (i ∷ l) =
    ground (arith, in_progress-clean j k l, eq_iff i k, eq_iff i j, eq_iff k j)

occurrences-in_progress :
    (k : String) (l : List String) → in_progress k l ≡ false → occurrences k l ≡ 0
unfolding in_progress occurrences
occurrences-in_progress k [] h = refl
occurrences-in_progress k (i ∷ l) h = ground (arith, occurrences-in_progress k l)

in_progress-occurrences :
    (k : String) (l : List String) → occurrences k l ≡ 0 → in_progress k l ≡ false
unfolding in_progress occurrences
in_progress-occurrences k [] h = refl
in_progress-occurrences k (i ∷ l) h = ground (arith, in_progress-occurrences k l)

occurrences-remove_one :
    (j k : String) (l : List String) → occurrences j (remove_one k l) ≤ occurrences j l
unfolding remove_one occurrences
occurrences-remove_one j k [] = omega arith
occurrences-remove_one j k (i ∷ l) = ground (arith, occurrences-remove_one j k l)

in_progress-remove_one :
    (j k : String) (l : List String)
    → occurrences k l ≤ 1
    → in_progress j (remove_one k l) ≡ (if str_eq k j then false else in_progress j l)
unfolding remove_one occurrences in_progress
in_progress-remove_one j k [] h = ground arith
in_progress-remove_one j k (i ∷ l) h = ground (
  arith,
  in_progress-remove_one j k l,
  eq_iff i k,
  eq_iff i j,
  eq_iff k j,
  in_progress-occurrences k l,
)

occurrences-remove_one_same :
    (k : String) (l : List String)
    → in_progress k l ≡ true
    → suc (occurrences k (remove_one k l)) ≡ occurrences k l
unfolding remove_one occurrences in_progress
occurrences-remove_one_same k [] h = ground arith
occurrences-remove_one_same k (i ∷ l) h = ground (arith, occurrences-remove_one_same k l)

moved :
    (j k : String) (p r : List String)
    → in_progress k p ≡ true
    → occurrences j p + occurrences j r ≤ 1
    → occurrences j (remove_one k p) + occurrences j (k ∷ r) ≤ 1
unfolding occurrences
moved j k p r h e = elim (Bool-cases (str_eq k j)) [
  | inl y ↦ ground (arith, y, occurrences-remove_one_same k p h, eq_iff k j)
  | inr n ↦ ground (arith, n, occurrences-remove_one j k p)
]

tested :
    (c : Calls) (key : String)
    → Exclusive c
    → Alone key c
    → in_progress key c.rpc_status ≡ false
    → Exclusive (record c { pending = key ∷ c.pending })
unfolding occurrences
tested c key e alone free = record {
  single = λ j. ground (
    arith,
    e.single j,
    e.agrees key,
    occurrences-in_progress key c.running,
    occurrences-in_progress key c.pending alone,
    eq_iff key j,
  );
  agrees = e.agrees;
}

entered :
    (c : Calls) (key : String)
    → Exclusive c
    → in_progress key c.pending ≡ true
    → Exclusive (record {
      rpc_status = enter key c.rpc_status;
      pending = remove_one key c.pending;
      running = key ∷ c.running;
    })
unfolding in_progress enter
entered c key e waits = record {
  single = λ j. moved j key c.pending c.running waits (e.single j);
  agrees = λ j. ground (arith, e.agrees j);
}

ended :
    (c : Calls) (key : String)
    → Exclusive c
    → Exclusive
        (record c { rpc_status = clean key c.rpc_status; running = remove_one key c.running })
ended c key e = record {
  single = λ j. omega (arith, e.single j, occurrences-remove_one j key c.running);
  agrees = λ j. rw (
    in_progress-clean j key,
    in_progress-remove_one j key c.running (omega (arith, e.single key)),
    e.agrees j,
  );
}

Reach-Exclusive : {c : Calls} → Reach Alone c → Exclusive c
unfolding occurrences
Reach-Exclusive idle = record { single = λ j. omega arith; agrees = λ j. refl }
Reach-Exclusive (tests {c = c} key r alone free) = tested c key (Reach-Exclusive r) alone free
Reach-Exclusive (enters {c = c} key r waits) = entered c key (Reach-Exclusive r) waits
Reach-Exclusive (ends {c = c} key r running) = ended c key (Reach-Exclusive r)

-- As long as no call comes to its test of the map while one with its key is between its own test and its
-- entry, at most one call with a key runs or is about to, and a call is refused exactly if one with its
-- key is running, in every state that calls and their ends lead to.
pub Reach-exclusive :
    {c : Calls} (key : String)
    → Reach Alone c
    → (occurrences key c.pending + occurrences key c.running ≤ 1)
      × ((init_func key c.rpc_status).0 ≡ in_progress key c.running)
unfolding init_func
Reach-exclusive {c} key r =
    let e = Reach-Exclusive r in (e.single key, ground (arith, e.agrees key))

-- A guarded call leaves the map as it was, for every key: refused, failed, panicked or done.
pub guarded-rpc_status {ℓ} :
    {S : Type 0} {A : Type ℓ} (key j : String) (body : Action S A) (w : World S)
    → in_progress j (guarded key body w).1.rpc_status ≡ in_progress j w.rpc_status
unfolding guarded
guarded-rpc_status key j body w = elim (Bool-cases (in_progress key w.rpc_status)) [
  | inl busy ↦ rw busy
  | inr free ↦ rw free (
      unfold in_progress clean in
      ground (arith, in_progress-clean j key w.rpc_status, eq_iff key j, eq_refl key))
]
