-- ===== src/Intel/Mitre/Calls.antt =====
-- ml/mirage/intel/mitre.py: the calls of `add` are those of the rules that apply.
use mathlib.Core.List.{Memᴰ}
use mathlib.Core.List.Memᴰ
use mirage_core.Shared.{
  ℕ, ◌≡◌, refl, sym, ◌⊎◌, inl, inr, subst, String, Bool, true, false, Option, List, [], ◌∷◌, ◌++◌,
  length, leb, ltb, ◌==◌, string_eq, ==_iff, if◌then◌else◌, arith, Option-cases,
}
use mirage_core.Shared.Flat.{mem_of_if}
use mirage_core.Shared.Dict.{lookup}
use mirage_core.Intel.{BaitEvent, ProductionSession, join_lines}
use mirage_core.Intel.Mitre.Users.{distinct_users-Three}
use mirage_core.Intel.Mitre.Rules.{
  Applies, shell, command, tried, guessed, sprayed, let_in, baited, stolen, passwords, users-Tried,
  passwords-Tried, length-mem, any_success-mem,
}
use mirage_core.Intel.Mitre.{
  Technique, TechniqueHit, command_rules, bait_type_technique, hit, distinct_users, any_success,
  rule_hits, guess_hits, spray_hits, accepted_hits, auth_hits, type_hits, exfil_hits, bait_hits,
  all_bait_hits, shell_hits, calls,
}

mem_of_if_pair :
    (b : Bool) {x y h : TechniqueHit}
    → Memᴰ h (if b then x ∷ y ∷ [] else [])
    → (b ≡ true) × ((h ≡ x) ⊎ (h ≡ y))
mem_of_if_pair true m = elim (Memᴰ.cases_cons m) [
  | inl e ↦ (refl, inl e)
  | inr later ↦ elim (Memᴰ.cases_cons later) [ inl e ↦ (refl, inr e) | inr never ↦ elim never [ ] ]
]
mem_of_if_pair false m = elim m [ ]

module _ (search : String → String → Option String) (repr : String → String) (show : ℕ → String)
    (prod : ProductionSession) where
  -- The technique of a hit applies.
  abbrev Sound : TechniqueHit → Type 0
  Sound h = Applies search prod h.technique

  hit-Sound :
      {t : Technique} {evidence : String} {h : TechniqueHit}
      → h ≡ hit t evidence
      → Applies search prod t
      → Sound h
  hit-Sound e a = subst (λ (g : TechniqueHit). Applies search prod g.technique) (sym e) a

  shell_hits-Sound :
      (lines : List String) (h : TechniqueHit)
      → ((x : String) → Memᴰ x lines → Memᴰ x prod.raw_commands)
      → Memᴰ h (shell_hits search repr show lines)
      → Sound h
  unfolding shell_hits
  shell_hits-Sound [] h sub m = elim m [ ]
  shell_hits-Sound (line ∷ lines) h sub m =
      hit-Sound (Memᴰ.eq_of_singleton m) (shell line (sub line (Memᴰ.head refl)))

  rule_hits-Sound :
      (rules : List (String × Technique)) (h : TechniqueHit)
      → ((x : String × Technique) → Memᴰ x rules → Memᴰ x command_rules)
      → Memᴰ h (rule_hits search repr show rules (join_lines prod.raw_commands))
      → Sound h
  unfolding rule_hits
  rule_hits-Sound [] h sub m = elim m [ ]
  rule_hits-Sound ((pattern, t) ∷ rules) h sub m =
      let later = λ (x : String × Technique) (k : Memᴰ x rules). sub x (Memᴰ.tail k) in
      elim (Option-cases (search pattern (join_lines prod.raw_commands))) [
        | inl absent ↦ rule_hits-Sound rules h later (rw (absent, rule_hits) at m)
        | inr (text, found) ↦ elim (Memᴰ.cases_cons (rw (found, rule_hits) at m)) [
          | inl e ↦ hit-Sound e (command pattern text t (sub (pattern, t) (Memᴰ.head refl)) found)
          | inr k ↦ rule_hits-Sound rules h later k
        ]
      ]

  guess_hits-Sound :
      (h : TechniqueHit)
      → Memᴰ h (guess_hits search repr show (passwords prod.auth_attempts))
      → Sound h
  unfolding guess_hits
  guess_hits-Sound h m =
      let attempts = prod.auth_attempts in
      let (one, which) = mem_of_if_pair (ltb 0 (length (passwords attempts))) m in
      let (a, k) = length-mem (passwords attempts) (ground arith) in
      let t = passwords-Tried attempts a k in
      elim which [
        | inl e ↦ hit-Sound e (tried a.username t)
        | inr e ↦ hit-Sound e (guessed a.username t)
      ]

  spray_hits-Sound :
      (h : TechniqueHit)
      → Memᴰ h (spray_hits search repr show (passwords prod.auth_attempts))
      → Sound h
  unfolding spray_hits
  spray_hits-Sound h m =
      let attempts = prod.auth_attempts in
      let (three, e) = mem_of_if (leb 3 (distinct_users (passwords attempts))) m in
      let (x, y, z, mx, my, mz, xy, xz, yz) =
        distinct_users-Three (passwords attempts) (ground arith) in
      hit-Sound e (
        sprayed x y z (users-Tried attempts x mx) (users-Tried attempts y my)
          (users-Tried attempts z mz) xy xz yz)

  accepted_hits-Sound :
      (h : TechniqueHit) → Memᴰ h (accepted_hits search repr show prod.auth_attempts) → Sound h
  unfolding accepted_hits
  accepted_hits-Sound h m =
      let (success, e) = mem_of_if (any_success prod.auth_attempts) m in
      let (a, k, good) = any_success-mem prod.auth_attempts success in hit-Sound e (let_in a k good)

  auth_hits-Sound :
      (h : TechniqueHit) → Memᴰ h (auth_hits search repr show prod.auth_attempts) → Sound h
  unfolding auth_hits
  auth_hits-Sound h m =
      let attempts = prod.auth_attempts in
      let spray = spray_hits search repr show (passwords attempts) in
      let guess = guess_hits search repr show (passwords attempts) in
      elim (Memᴰ.append_cases (guess ++ spray) m) [
        | inl m₁ ↦ elim (Memᴰ.append_cases guess m₁) [
          | inl k ↦ guess_hits-Sound h k
          | inr k ↦ spray_hits-Sound h k
        ]
        | inr k ↦ accepted_hits-Sound h k
      ]

  type_hits-Sound :
      (b : BaitEvent) (h : TechniqueHit)
      → Memᴰ b prod.bait_events
      → Memᴰ h (type_hits search repr show b)
      → Sound h
  unfolding type_hits
  type_hits-Sound b h mb m = elim (Option-cases (lookup b.bait_type bait_type_technique)) [
    | inl unknown ↦ elim (rw (unknown, type_hits) at m) [ ]
    | inr (t, known) ↦
        hit-Sound (Memᴰ.eq_of_singleton (rw (known, type_hits) at m)) (baited b t mb known)
  ]

  bait_hits-Sound :
      (b : BaitEvent) (h : TechniqueHit)
      → Memᴰ b prod.bait_events
      → Memᴰ h (bait_hits search repr show b)
      → Sound h
  unfolding bait_hits exfil_hits
  bait_hits-Sound b h mb m = elim (Memᴰ.append_cases (type_hits search repr show b) m) [
    | inl first ↦ type_hits-Sound b h mb first
    | inr last ↦
        let (stole, e) = mem_of_if (b.access_type == "exfil_attempt") last in
        hit-Sound e (stolen b mb ((==_iff b.access_type "exfil_attempt").0 stole))
  ]

  all_bait_hits-Sound :
      (baits : List BaitEvent) (h : TechniqueHit)
      → ((b : BaitEvent) → Memᴰ b baits → Memᴰ b prod.bait_events)
      → Memᴰ h (all_bait_hits search repr show baits)
      → Sound h
  unfolding all_bait_hits
  all_bait_hits-Sound [] h sub m = elim m [ ]
  all_bait_hits-Sound (b ∷ baits) h sub m =
      elim (Memᴰ.append_cases (bait_hits search repr show b) m) [
        | inl here ↦ bait_hits-Sound b h (sub b (Memᴰ.head refl)) here
        | inr later ↦ all_bait_hits-Sound baits h (λ x k. sub x (Memᴰ.tail k)) later
      ]

  pub calls-Applies :
      (h : TechniqueHit) → Memᴰ h (calls search repr show prod) → Applies search prod h.technique
  unfolding calls
  calls-Applies h m =
      let commands = rule_hits search repr show command_rules (join_lines prod.raw_commands) in
      let auth = auth_hits search repr show prod.auth_attempts in
      let shells = shell_hits search repr show prod.raw_commands in
      elim (Memᴰ.append_cases (shells ++ commands ++ auth) m) [
        | inl m₁ ↦ elim (Memᴰ.append_cases (shells ++ commands) m₁) [
          | inl m₂ ↦ elim (Memᴰ.append_cases shells m₂) [
            | inl k ↦ shell_hits-Sound prod.raw_commands h (λ x j. j) k
            | inr k ↦ rule_hits-Sound command_rules h (λ x j. j) k
          ]
          | inr k ↦ auth_hits-Sound h k
        ]
        | inr k ↦ all_bait_hits-Sound prod.bait_events h (λ x j. j) k
      ]
