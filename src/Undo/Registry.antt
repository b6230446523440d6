-- ===== src/Undo/Registry.antt =====
-- UndoLogEngine::Registry (runtime/src/engines/undolog_engine.cpp): the set of the engines, as a list, and
-- which of them an address belongs to.
use libcrpm.Base.{
  ℕ, ◌≡◌, ◌≢◌, refl, ap, Bool, true, false, ◌&&◌, List, [], ◌∷◌, length, ◌==◌, ltb, leb,
  if◌then◌else◌, Option, none, some, arith, Bool-cases, inl, inr, ◌⊎◌, subst, ==_refl,
}

-- An engine by its identity and its address range.
pub record Engine : Type 0 where
  pub id : ℕ
  pub first : ℕ
  pub second : ℕ

pub record Registry : Type 0 where
  pub engines : List Engine
  pub default_engine : Option Engine

abbrev pub no_engines : Registry
no_engines = record { engines = []; default_engine = none }

abbrev pub covers : Engine → ℕ → Bool
covers e addr = leb e.first addr && ltb addr e.second

-- `engines.erase(engine)`.
unfoldable pub erase : List Engine → ℕ → List Engine
erase [] id = []
erase (e ∷ es) id = let rest = erase es id in if e.id == id then rest else e ∷ rest

unfoldable pub insert : List Engine → Engine → List Engine
insert es e = e ∷ erase es e.id

unfoldable pub default_after : Option Engine → Engine → Option Engine
default_after none e = some e
default_after (some d) e = some d

unfoldable pub do_register : Registry → Engine → Registry
do_register r e = record {
  engines = insert r.engines e;
  default_engine = default_after r.default_engine e;
}

unfoldable pub default_without : Option Engine → ℕ → Option Engine
default_without none id = none
default_without (some d) id = if d.id == id then none else some d

unfoldable pub do_unregister : Registry → ℕ → Registry
do_unregister r id = record {
  engines = erase r.engines id;
  default_engine = default_without r.default_engine id;
}

-- The loop over the engines.
unfoldable pub search_engines : List Engine → ℕ → Option Engine
search_engines [] addr = none
search_engines (e ∷ es) addr =
    let rest = search_engines es addr in if covers e addr then some e else rest

-- What `find` does once the default engine does not cover the address.
unfoldable pub find_other : List Engine → ℕ → Option Engine
find_other es addr = if length es == 1 then none else search_engines es addr

unfoldable pub find_from : Option Engine → List Engine → ℕ → Option Engine
find_from none es addr = find_other es addr
find_from (some d) es addr = if covers d addr then some d else find_other es addr

unfoldable pub find : Registry → ℕ → Option Engine
find r addr = find_from r.default_engine r.engines addr

-- What `get_unique_engine` returns.
unfoldable pub get_unique_engine : Registry → Option Engine
get_unique_engine r = if length r.engines == 1 then r.default_engine else none

none-some : {e : Engine} → none ≡ some e → ⊥
none-some p = subst (λ o. elim o [ none ↦ Unit | some x ↦ ⊥ ]) p tt

some-injective : {a b : Engine} → some a ≡ some b → a ≡ b
some-injective {a} p = ap (λ o. elim o [ none ↦ a | some x ↦ x ]) p

chosen :
    (b : Bool) (d e : Engine) (rest : Option Engine)
    → (if b then some d else rest) ≡ some e
    → ((b ≡ true) × (d ≡ e)) ⊎ (rest ≡ some e)
chosen true d e rest p = inl (refl, some-injective p)
chosen false d e rest p = inr p

search_engines-covers :
    (es : List Engine) (addr : ℕ) (e : Engine)
    → search_engines es addr ≡ some e
    → covers e addr ≡ true
unfolding search_engines
search_engines-covers [] addr e found = absurd (none-some found)
search_engines-covers (d ∷ es) addr e found =
    elim (chosen (covers d addr) d e (search_engines es addr) found) [
      | inl (covered, same) ↦ subst (λ x. covers x addr ≡ true) same covered
      | inr later ↦ search_engines-covers es addr e later
    ]

find_other-covers :
    (es : List Engine) (addr : ℕ) (e : Engine) → find_other es addr ≡ some e → covers e addr ≡ true
unfolding find_other
find_other-covers es addr e found = elim (Bool-cases (length es == 1)) [
  | inl lonely ↦ absurd (none-some (rw lonely at found))
  | inr several ↦ search_engines-covers es addr e (rw several at found)
]

-- An engine that the registry finds for an address covers the address.
pub find-covers :
    (r : Registry) (addr : ℕ) (e : Engine) → find r addr ≡ some e → covers e addr ≡ true
unfolding find
find-covers r addr e found = from r.default_engine found
  where
    from : (o : Option Engine) → find_from o r.engines addr ≡ some e → covers e addr ≡ true
    from none p = find_other-covers r.engines addr e (unfold find_from in p)
    from (some d) p =
        unfold find_from in
        elim (chosen (covers d addr) d e (find_other r.engines addr) p) [
          | inl (covered, same) ↦ subst (λ x. covers x addr ≡ true) same covered
          | inr later ↦ find_other-covers r.engines addr e later
        ]

-- If two engines are registered and the one that was registered first is taken out, the registry
-- finds no engine for any address, although the second one is still registered.
pub find-do_unregister :
    (a b : Engine) (addr : ℕ)
    → a.id ≢ b.id
    → (find (do_unregister (do_register (do_register no_engines a) b) a.id) addr ≡ none)
      × ((do_unregister (do_register (do_register no_engines a) b) a.id).engines ≡ b ∷ [])
unfolding find do_unregister do_register insert erase default_after default_without find_from
    find_other
find-do_unregister a b addr apart =
    let b_stays : (b.id == a.id) ≡ false = ground arith in
    let a_other : (a.id == b.id) ≡ false = ground arith in
    rw (a_other, b_stays, ==_refl a.id) (refl, refl)
