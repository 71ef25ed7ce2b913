-- ===== src/Intel/Mitre/Hits.antt =====
-- ml/mirage/intel/mitre.py: which hits `map_mitre` reports.
use mathlib.Core.List.{Memᴰ}
use mathlib.Core.List.Memᴰ
use mirage_core.Shared.{
  ℕ, ◌≡◌, sym, ap, ◌∙◌, ◌↔◌, inl, inr, String, Option, none, some, List, [], ◌∷◌, ◌==◌, string_eq,
  ==_iff, if◌then◌else◌, arith, Bool-cases,
}
use mirage_core.Shared.Dict.{
  Dict, lookup, set_default, NodupKeys, insert-NodupKeys, lookup-insert, mem_of_lookup,
  lookup_of_mem,
}
use mirage_core.Shared.Sorting.{mem-sort_by, sort_by-mem}
use mirage_core.Intel.{ProductionSession}
use mirage_core.Intel.Mitre.{TechniqueHit, in_order, calls, add_all, map_mitre}

-- The first hit with an id.
abbrev pub find_hit : String → List TechniqueHit → Option TechniqueHit
find_hit k [] = none
find_hit k (h ∷ hs) = if h.technique.id == k then some h else find_hit k hs

abbrev or_else : Option TechniqueHit → Option TechniqueHit → Option TechniqueHit
or_else none o = o
or_else (some h) o = some h

lookup-set_default :
    (k : String) (h : TechniqueHit) (d : Dict String TechniqueHit)
    → lookup k (set_default h.technique.id h d)
      ≡ or_else (lookup k d) (if h.technique.id == k then some h else none)
lookup-set_default k h d =
    ground (arith, lookup-insert h.technique.id k h d, ==_iff h.technique.id k)

lookup-add_all :
    (k : String) (d : Dict String TechniqueHit) (hs : List TechniqueHit)
    → lookup k (add_all d hs) ≡ or_else (lookup k d) (find_hit k hs)
unfolding add_all
lookup-add_all k d [] = ground arith
lookup-add_all k d (h ∷ hs) =
    lookup-add_all k (set_default h.technique.id h d) hs
    ∙ (rw (lookup-set_default k h d) (ground arith))

set_default-NodupKeys :
    (k : String) (h : TechniqueHit) (d : Dict String TechniqueHit)
    → NodupKeys d
    → NodupKeys (set_default k h d)
set_default-NodupKeys k h d u = ground (arith, insert-NodupKeys k h d u)

pub add_all-NodupKeys :
    (d : Dict String TechniqueHit) (hs : List TechniqueHit) → NodupKeys d → NodupKeys (add_all d hs)
unfolding add_all
add_all-NodupKeys d [] u = u
add_all-NodupKeys d (h ∷ hs) u =
    add_all-NodupKeys (set_default h.technique.id h d) hs
      (set_default-NodupKeys h.technique.id h d u)

pub find_hit-id :
    (k : String) (hs : List TechniqueHit) (h : TechniqueHit)
    → find_hit k hs ≡ some h
    → h.technique.id ≡ k
find_hit-id k [] h e = absurd (cc)
find_hit-id k (g ∷ gs) h e = elim (Bool-cases (g.technique.id == k)) [
  | inl same ↦
      let is_g : g ≡ h = ground arith in
      sym (ap (λ (x : TechniqueHit). x.technique.id) is_g) ∙ (==_iff g.technique.id k).0 same
  | inr other ↦ find_hit-id k gs h (rw other at e)
]

-- Every hit is filed under its own id.
abbrev Filed : Dict String TechniqueHit → Type 0
Filed d = (k : String) (h : TechniqueHit) → lookup k d ≡ some h → h.technique.id ≡ k

add_all-Filed : (hs : List TechniqueHit) → Filed (add_all [] hs)
add_all-Filed hs k h e = find_hit-id k hs h (sym (lookup-add_all k [] hs) ∙ e)

module _ (search : String → String → Option String) (repr : String → String) (show : ℕ → String)
    (prod : ProductionSession) where
  abbrev hits : Dict String TechniqueHit
  hits = add_all [] (calls search repr show prod)

  -- `map_mitre` reports a hit exactly when it is the first that the rules give for its technique.
  pub map_mitre-mem_iff :
      (h : TechniqueHit)
      → Memᴰ h (map_mitre search repr show prod)
        ↔ (find_hit h.technique.id (calls search repr show prod) ≡ some h)
  unfolding map_mitre
  map_mitre-mem_iff h =
      let hs = calls search repr show prod in
      let unique = add_all-NodupKeys [] hs tt in
      (
        λ m.
            let (entry, listed, same) =
              Memᴰ.of_map (λ (p : String × TechniqueHit). p.1) hits (mem-sort_by in_order _ m) in
            let found = lookup_of_mem {k = entry.0} {v = entry.1} listed unique in
            let id = add_all-Filed hs entry.0 entry.1 found in
            rw (← same, id) (sym (lookup-add_all entry.0 [] hs) ∙ found),
        λ e. sort_by-mem in_order (
            Memᴰ.map (λ (p : String × TechniqueHit). p.1)
              (mem_of_lookup h.technique.id h hits (lookup-add_all h.technique.id [] hs ∙ e))),
      )
