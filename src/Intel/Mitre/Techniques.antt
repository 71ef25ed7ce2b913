-- ===== src/Intel/Mitre/Techniques.antt =====
-- ml/mirage/intel/mitre.py: which techniques `map_mitre` reports.
use mathlib.Core.List.{Memᴰ, Nodup}
use mathlib.Core.List.Memᴰ
use mathlib.Core.List.Perm
use mirage_core.Shared.{
  ℕ, ◌≡◌, refl, sym, ap, ◌∙◌, inl, inr, subst, String, Option, some, List, [], ◌∷◌, map, ◌==◌,
  string_eq, ==_iff, Bool-cases, Option-cases, arith,
}
use mirage_core.Shared.Dict.{
  Dict, lookup, set_default, insert, Nodup-dict_keys, dict_keys, dict_values,
}
use mirage_core.Shared.Sorting.{sort_by-perm}
use mirage_core.Intel.{ProductionSession}
use mirage_core.Intel.Mitre.Hits.{find_hit, find_hit-id, add_all-NodupKeys, map_mitre-mem_iff}
use mirage_core.Intel.Mitre.Rules.{Applies}
use mirage_core.Intel.Mitre.Calls.{calls-Applies}
use mirage_core.Intel.Mitre.Called.{Applies-calls}
use mirage_core.Intel.Mitre.{
  Technique, TechniqueHit, in_order, calls, add_all, map_mitre, map_mitre_ids,
}

find_hit-mem :
    (k : String) (hs : List TechniqueHit) (h : TechniqueHit) → find_hit k hs ≡ some h → Memᴰ h hs
find_hit-mem k [] h e = absurd (cc)
find_hit-mem k (g ∷ gs) h e = elim (Bool-cases (g.technique.id == k)) [
  | inl same ↦ let is_g : g ≡ h = ground arith in Memᴰ.head (sym is_g)
  | inr other ↦ Memᴰ.tail (find_hit-mem k gs h (rw other at e))
]

mem-find_hit :
    (hs : List TechniqueHit) (h : TechniqueHit)
    → Memᴰ h hs
    → (g : TechniqueHit) × (find_hit h.technique.id hs ≡ some g)
mem-find_hit [] h m = elim m [ ]
mem-find_hit (g ∷ gs) h m = elim (Bool-cases (g.technique.id == h.technique.id)) [
  | inl same ↦ (g, rw same refl)
  | inr other ↦ elim (Memᴰ.cases_cons m) [
    | inl e ↦ absurd (
        ground (
          arith,
          ==_iff g.technique.id h.technique.id,
          ap (λ (x : TechniqueHit). x.technique.id) e,
        ))
    | inr later ↦ let (f, e) = mem-find_hit gs h later in (f, rw other e)
  ]
]

abbrev id_of : TechniqueHit → String
id_of h = h.technique.id

-- The key of each entry is the id of its hit.
abbrev IsKeyed : Dict String TechniqueHit → Type 0
IsKeyed [] = Unit
IsKeyed ((k, h) ∷ d) = (k ≡ id_of h) × IsKeyed d

insert-IsKeyed :
    (h : TechniqueHit) (d : Dict String TechniqueHit) → IsKeyed d → IsKeyed (insert (id_of h) h d)
insert-IsKeyed h [] u = (refl, tt)
insert-IsKeyed h ((k, g) ∷ d) (e, u) = elim (Bool-cases (k == id_of h)) [
  | inl same ↦ rw same ((==_iff k (id_of h)).0 same, u)
  | inr other ↦ rw other (e, insert-IsKeyed h d u)
]

set_default-IsKeyed :
    (h : TechniqueHit) (d : Dict String TechniqueHit)
    → IsKeyed d
    → IsKeyed (set_default (id_of h) h d)
set_default-IsKeyed h d u = elim (Option-cases (lookup (id_of h) d)) [
  | inl new ↦ rw (new, IsKeyed) (insert-IsKeyed h d u)
  | inr (g, known) ↦ rw (known, IsKeyed) u
]

add_all-IsKeyed :
    (d : Dict String TechniqueHit) (hs : List TechniqueHit) → IsKeyed d → IsKeyed (add_all d hs)
unfolding add_all
add_all-IsKeyed d [] u = u
add_all-IsKeyed d (h ∷ hs) u =
    add_all-IsKeyed (set_default (id_of h) h d) hs (set_default-IsKeyed h d u)

keys_are_ids : (d : Dict String TechniqueHit) → IsKeyed d → dict_keys d ≡ map id_of (dict_values d)
keys_are_ids [] u = refl
keys_are_ids ((k, h) ∷ d) (e, u) = rw (e, keys_are_ids d u)

module _ (search : String → String → Option String) (repr : String → String) (show : ℕ → String)
    (prod : ProductionSession) where
  -- `map_mitre` reports only techniques whose rule applies to the session, and the id of each of
  -- these, once: the shell if there are commands, the technique of each command rule whose pattern is
  -- found, those of password guessing if a password was tried, of spraying if three different user
  -- names were, of valid accounts if an attempt succeeded, and those of the baits that were touched.
  pub map_mitre-Applies :
      ((h : TechniqueHit)
        → Memᴰ h (map_mitre search repr show prod)
        → Applies search prod h.technique)
      × ((t : Technique) → Applies search prod t → Memᴰ t.id (map_mitre_ids search repr show prod))
      × Nodup (map_mitre_ids search repr show prod)
  unfolding map_mitre_ids map_mitre
  map_mitre-Applies =
      let hs = calls search repr show prod in
      let dict = add_all [] hs in
      let keyed = add_all-IsKeyed [] hs tt in
      let unique = Nodup-dict_keys dict (add_all-NodupKeys [] hs tt) in
      (
        λ h m.
            calls-Applies search repr show prod h
              (find_hit-mem h.technique.id hs h ((map_mitre-mem_iff search repr show prod h).0 m)),
        λ t a.
            let (h, m, e) = Applies-calls search repr show prod t a in
            let (g, first) = mem-find_hit hs h m in
            let id = find_hit-id (id_of h) hs g first in
            subst (λ (k : String). Memᴰ k (map id_of (map_mitre search repr show prod)))
              (id ∙ ap (λ (x : Technique). x.id) e)
              (Memᴰ.map id_of (
                (map_mitre-mem_iff search repr show prod g).1
                  (ap (λ k. find_hit k hs) id ∙ first))),
        Perm.nodup (Perm.map id_of (Perm.symm (sort_by-perm in_order (dict_values dict))))
            (subst (λ (xs : List String). Nodup xs) (keys_are_ids dict keyed) unique),
      )
