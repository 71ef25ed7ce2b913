-- ===== src/Intel/Mitre/Called.antt =====
-- ml/mirage/intel/mitre.py: every rule that applies calls `add` with its technique.
use mathlib.Core.List.{Memᴰ}
use mathlib.Core.List.Memᴰ
use mirage_core.Shared.{
  ℕ, ◌≡◌, ◌≢◌, refl, sym, ap, ◌∙◌, inl, inr, subst, String, true, Option, some, List, [], ◌∷◌, ◌++◌,
  length, leb, ltb, string_eq, ==_iff, arith, Option-cases,
}
use mirage_core.Shared.Dict.{lookup}
use mirage_core.Intel.{AuthAttempt, BaitEvent, ProductionSession, join_lines}
use mirage_core.Intel.Mitre.Users.{Three-distinct_users}
use mirage_core.Intel.Mitre.Rules.{
  Tried, Applies, shell, command, tried, guessed, sprayed, let_in, baited, stolen, Called,
  Called-left, Called-right, passwords, Tried-users, Tried-passwords, mem-length, mem-any_success,
}
use mirage_core.Intel.Mitre.{
  Technique, TechniqueHit, execution_shell, brute_force, password_guessing, password_spraying,
  valid_accounts, exfil_c2, command_rules, bait_type_technique, distinct_users, rule_hits,
  guess_hits, spray_hits, accepted_hits, auth_hits, type_hits, exfil_hits, bait_hits, all_bait_hits,
  shell_hits, calls,
}

module _ (search : String → String → Option String) (repr : String → String) (show : ℕ → String)
    (prod : ProductionSession) where
  -- The calls of the first two rules, and those before the baits.
  abbrev lines_and_rules : List TechniqueHit
  lines_and_rules =
      shell_hits search repr show prod.raw_commands
      ++ rule_hits search repr show command_rules (join_lines prod.raw_commands)

  abbrev before : List TechniqueHit
  before = lines_and_rules ++ auth_hits search repr show prod.auth_attempts

module _ (search : String → String → Option String) (repr : String → String) (show : ℕ → String)
    (prod : ProductionSession) where
  shell_hits-Called :
      (line : String) (lines : List String)
      → Memᴰ line lines
      → Called (shell_hits search repr show lines) execution_shell
  unfolding shell_hits
  shell_hits-Called line [] m = elim m [ ]
  shell_hits-Called line (x ∷ lines) m = (_, Memᴰ.head refl, refl)

  rule_hits-Called :
      (blob : String) (rules : List (String × Technique)) (pattern text : String) (t : Technique)
      → Memᴰ (pattern, t) rules
      → search pattern blob ≡ some text
      → Called (rule_hits search repr show rules blob) t
  unfolding rule_hits
  rule_hits-Called blob [] pattern text t m found = elim m [ ]
  rule_hits-Called blob ((p, u) ∷ rules) pattern text t m found = elim (Memᴰ.cases_cons m) [
    | inl e ↦
        let same : search p blob ≡ some text =
          ap (λ q. search q blob) (ap (λ (x : String × Technique). x.0) (sym e)) ∙ found in
        rw (same, rule_hits) (_, Memᴰ.head refl, ap (λ (x : String × Technique). x.1) (sym e))
    | inr later ↦
        let (h, k, is_t) = rule_hits-Called blob rules pattern text t later found in
        elim (Option-cases (search p blob)) [
          | inl absent ↦ rw (absent, rule_hits) (h, k, is_t)
          | inr (other, there) ↦ rw (there, rule_hits) (h, Memᴰ.tail k, is_t)
        ]
  ]

  guess_hits-Called :
      (name : String)
      → Tried prod.auth_attempts name
      → Called (guess_hits search repr show (passwords prod.auth_attempts)) brute_force
        × Called (guess_hits search repr show (passwords prod.auth_attempts)) password_guessing
  unfolding guess_hits
  guess_hits-Called name h =
      let (a, m, e) = Tried-passwords prod.auth_attempts name h in
      let n = mem-length a (passwords prod.auth_attempts) m in
      let one : ltb 0 (length (passwords prod.auth_attempts)) ≡ true = ground arith in
      rw (one, guess_hits) ((_, Memᴰ.head refl, refl), (_, Memᴰ.tail (Memᴰ.head refl), refl))

  spray_hits-Called :
      (x y z : String)
      → Tried prod.auth_attempts x
      → Tried prod.auth_attempts y
      → Tried prod.auth_attempts z
      → x ≢ y
      → x ≢ z
      → y ≢ z
      → Called (spray_hits search repr show (passwords prod.auth_attempts)) password_spraying
  unfolding spray_hits
  spray_hits-Called x y z hx hy hz xy xz yz =
      let attempts = prod.auth_attempts in
      let n = Three-distinct_users (passwords attempts) (
        x,
        y,
        z,
        Tried-users attempts x hx,
        Tried-users attempts y hy,
        Tried-users attempts z hz,
        xy,
        xz,
        yz,
      ) in
      let three : leb 3 (distinct_users (passwords attempts)) ≡ true = ground arith in
      rw (three, spray_hits) (_, Memᴰ.head refl, refl)

  accepted_hits-Called :
      (a : AuthAttempt)
      → Memᴰ a prod.auth_attempts
      → a.success ≡ true
      → Called (accepted_hits search repr show prod.auth_attempts) valid_accounts
  unfolding accepted_hits
  accepted_hits-Called a m e =
      rw (mem-any_success a prod.auth_attempts m e, accepted_hits) (_, Memᴰ.head refl, refl)

  all_bait_hits-Called :
      (b : BaitEvent) (baits : List BaitEvent) (t : Technique)
      → Memᴰ b baits
      → Called (bait_hits search repr show b) t
      → Called (all_bait_hits search repr show baits) t
  unfolding all_bait_hits
  all_bait_hits-Called b [] t m called = elim m [ ]
  all_bait_hits-Called b (x ∷ baits) t m called = elim (Memᴰ.cases_cons m) [
    | inl e ↦
        Called-left (bait_hits search repr show x) (all_bait_hits search repr show baits) t
          (subst (λ y. Called (bait_hits search repr show y) t) e called)
    | inr later ↦
        Called-right (bait_hits search repr show x) (all_bait_hits search repr show baits) t
          (all_bait_hits-Called b baits t later called)
  ]

  type_hits-Called :
      (b : BaitEvent) (t : Technique)
      → lookup b.bait_type bait_type_technique ≡ some t
      → Called (type_hits search repr show b) t
  unfolding type_hits
  type_hits-Called b t known = rw (known, type_hits) (_, Memᴰ.head refl, refl)

  exfil_hits-Called :
      (b : BaitEvent)
      → b.access_type ≡ "exfil_attempt"
      → Called (exfil_hits search repr show b) exfil_c2
  unfolding exfil_hits
  exfil_hits-Called b stole =
      rw ((==_iff b.access_type "exfil_attempt").1 stole, exfil_hits) (_, Memᴰ.head refl, refl)

  Called-bait :
      (b : BaitEvent) (t : Technique)
      → Memᴰ b prod.bait_events
      → Called (bait_hits search repr show b) t
      → Called (calls search repr show prod) t
  unfolding calls
  Called-bait b t m c =
      let baits = all_bait_hits search repr show prod.bait_events in
      Called-right (before search repr show prod) baits t
        (all_bait_hits-Called b prod.bait_events t m c)

  Called-auth :
      (t : Technique)
      → Called (auth_hits search repr show prod.auth_attempts) t
      → Called (calls search repr show prod) t
  unfolding calls
  Called-auth t c =
      let baits = all_bait_hits search repr show prod.bait_events in
      Called-left (before search repr show prod) baits t (
        Called-right (lines_and_rules search repr show prod)
          (auth_hits search repr show prod.auth_attempts) t c)

  Called-line :
      (t : Technique)
      → Called (lines_and_rules search repr show prod) t
      → Called (calls search repr show prod) t
  unfolding calls
  Called-line t c =
      let auth = auth_hits search repr show prod.auth_attempts in
      let baits = all_bait_hits search repr show prod.bait_events in
      Called-left (before search repr show prod) baits t
        (Called-left (lines_and_rules search repr show prod) auth t c)

  Called-guess :
      (t : Technique)
      → Called (guess_hits search repr show (passwords prod.auth_attempts)) t
      → Called (calls search repr show prod) t
  unfolding auth_hits
  Called-guess t c =
      let guess = guess_hits search repr show (passwords prod.auth_attempts) in
      let spray = spray_hits search repr show (passwords prod.auth_attempts) in
      let accepted = accepted_hits search repr show prod.auth_attempts in
      Called-auth t (Called-left (guess ++ spray) accepted t (Called-left guess spray t c))

  pub Applies-calls :
      (t : Technique) → Applies search prod t → Called (calls search repr show prod) t
  unfolding auth_hits bait_hits
  Applies-calls t (shell line m) =
      let shells = shell_hits search repr show prod.raw_commands in
      let commands = rule_hits search repr show command_rules (join_lines prod.raw_commands) in
      Called-line _ (Called-left shells commands _ (shell_hits-Called line prod.raw_commands m))
  Applies-calls t (command pattern text u m found) =
      let shells = shell_hits search repr show prod.raw_commands in
      let blob = join_lines prod.raw_commands in
      let commands = rule_hits search repr show command_rules blob in
      Called-line u (
        Called-right shells commands u (rule_hits-Called blob command_rules pattern text u m found))
  Applies-calls t (tried name h) = Called-guess _ (guess_hits-Called name h).0
  Applies-calls t (guessed name h) = Called-guess _ (guess_hits-Called name h).1
  Applies-calls t (sprayed x y z hx hy hz xy xz yz) =
      let guess = guess_hits search repr show (passwords prod.auth_attempts) in
      let spray = spray_hits search repr show (passwords prod.auth_attempts) in
      let accepted = accepted_hits search repr show prod.auth_attempts in
      Called-auth _ (
        Called-left (guess ++ spray) accepted _
          (Called-right guess spray _ (spray_hits-Called x y z hx hy hz xy xz yz)))
  Applies-calls t (let_in a m e) =
      let guess = guess_hits search repr show (passwords prod.auth_attempts) in
      let spray = spray_hits search repr show (passwords prod.auth_attempts) in
      let accepted = accepted_hits search repr show prod.auth_attempts in
      Called-auth _ (Called-right (guess ++ spray) accepted _ (accepted_hits-Called a m e))
  Applies-calls t (baited b u m known) = Called-bait b u m (
      Called-left (type_hits search repr show b) (exfil_hits search repr show b) u
        (type_hits-Called b u known))
  Applies-calls t (stolen b m stole) = Called-bait b _ m (
      Called-right (type_hits search repr show b) (exfil_hits search repr show b) _
        (exfil_hits-Called b stole))
