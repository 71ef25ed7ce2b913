-- ===== src/Tokenizer/Storage/Roundtrip.antt =====
-- ml/mirage/tokenizer/tokenizer.py: `load` restores what `save` stored.
use mirage_core.Shared.{
  ℕ, zero, suc, ◌+◌, ◌≡◌, refl, sym, ap, ◌∙◌, inl, inr, String, false, none, some, List, [], ◌∷◌,
  ◌++◌, ◌==◌, string_eq, ==_iff, arith, Bool-cases, length, get_elem?, replicate, All, All-mem,
  All-of_mem, mem_of_get_elem?, get_elem?_of_mem, append-nil, append_assoc, length-append,
}
use mirage_core.Shared.Dict.{Dict, lookup, insert, lookup-insert}
use mirage_core.Tokenizer.{Runtime, Tables, CommandTokenizer, enumerate_tokens}
use mirage_core.Tokenizer.Storage.{set_at, place_all, Stored, save, load}
use mirage_core.Tokenizer.Vocab.{IsVocab}

-- No token is listed twice.
abbrev IsDistinct : List String → Type 0
IsDistinct [] = Unit
IsDistinct (x ∷ xs) = All (λ y. (x == y) ≡ false) xs × IsDistinct xs

-- The tokens with their ids, from `i` on.
abbrev index_from : ℕ → List String → Dict String ℕ
index_from i [] = []
index_from i (x ∷ xs) = (x, i) ∷ index_from (i + 1) xs

insert-new :
    (k : String) (v : ℕ) (d : Dict String ℕ) → lookup k d ≡ none → insert k v d ≡ d ++ (k, v) ∷ []
insert-new k v [] h = refl
insert-new k v ((j, w) ∷ d) h = ground (arith, insert-new k v d)

still_new :
    (k : String) (v : ℕ) (d : Dict String ℕ) (xs : List String)
    → All (λ y. (k == y) ≡ false) xs
    → All (λ y. lookup y d ≡ none) xs
    → All (λ y. lookup y (insert k v d) ≡ none) xs
still_new k v d [] h g = tt
still_new k v d (x ∷ xs) h g = (rw (lookup-insert k x v d, h.0) g.0, still_new k v d xs h.1 g.1)

enumerate_tokens-index :
    (i : ℕ) (d : Dict String ℕ) (xs : List String)
    → IsDistinct xs
    → All (λ y. lookup y d ≡ none) xs
    → enumerate_tokens i d xs ≡ d ++ index_from i xs
unfolding enumerate_tokens
enumerate_tokens-index i d [] distinct new = sym (append-nil d)
enumerate_tokens-index i d (x ∷ xs) distinct new =
    enumerate_tokens-index (i + 1) (insert x i d) xs distinct.1
      (still_new x i d xs distinct.0 new.1)
    ∙ ap (λ e. e ++ index_from (i + 1) xs) (insert-new x i d new.0)
    ∙ append_assoc d ((x, i) ∷ []) (index_from (i + 1) xs)

lookup-index_from :
    (x : String) (xs : List String) (i k : ℕ)
    → lookup x (index_from i xs) ≡ some k
    → (j : ℕ) × (k ≡ i + j) × (get_elem? xs j ≡ some x)
lookup-index_from x [] i k h = absurd (cc)
lookup-index_from x (y ∷ ys) i k h = elim (Bool-cases (y == x)) [
  | inl same ↦ (0, ground arith, ap some ((==_iff y x).0 same))
  | inr other ↦
      let (j, e, at) = lookup-index_from x ys (i + 1) k (ground arith) in (suc j, omega arith, at)
]

index_from-lookup :
    (x : String) (xs : List String) (i j : ℕ)
    → IsDistinct xs
    → get_elem? xs j ≡ some x
    → lookup x (index_from i xs) ≡ some (i + j)
index_from-lookup x [] i j distinct h = absurd (cc)
index_from-lookup x (y ∷ ys) i zero distinct h = ground (arith, ==_iff y x)
index_from-lookup x (y ∷ ys) i (suc j) distinct h =
    let other = All-mem (λ z. (y == z) ≡ false) distinct.0 (mem_of_get_elem? ys j h) in
    let e : suc (i + j) ≡ i + suc j = omega arith in
    rw other (index_from-lookup x ys (i + 1) j distinct.1 h ∙ ap some (omega arith))

set_at-end :
    (xs ys : List String) (old new : String)
    → set_at (xs ++ old ∷ ys) (length xs) new ≡ some (xs ++ new ∷ ys)
unfolding set_at
set_at-end [] ys old new = refl
set_at-end (x ∷ xs) ys old new = rw (set_at-end xs ys old new)

place_all-cons :
    (tokens placed : List String) (vocab : Dict String ℕ) (token : String) (idx : ℕ)
    → set_at tokens idx token ≡ some placed
    → place_all tokens ((token, idx) ∷ vocab) ≡ place_all placed vocab
unfolding place_all
place_all-cons tokens placed vocab token idx e = rw (e, place_all)

place_all-index :
    (n : ℕ) (xs ys : List String)
    → n ≡ length xs
    → place_all (xs ++ replicate (length ys) "") (index_from n ys) ≡ some (xs ++ ys)
unfolding place_all
place_all-index n xs [] h = refl
place_all-index n xs (y ∷ ys) h =
    let blanks : List String = replicate (length ys) "" in
    let later =
      place_all-index (n + 1) (xs ++ y ∷ []) ys (omega (arith, h, length-append xs (y ∷ []))) in
    place_all-cons (xs ++ "" ∷ blanks) (xs ++ y ∷ blanks) (index_from (n + 1) ys) y n
      (rw h (set_at-end xs blanks "" y))
    ∙ ap (λ zs. place_all zs (index_from (n + 1) ys)) (sym (append_assoc xs (y ∷ []) blanks))
    ∙ later
    ∙ ap some (append_assoc xs (y ∷ []) ys)

length-index_from : (i : ℕ) (xs : List String) → length (index_from i xs) ≡ length xs
length-index_from i [] = refl
length-index_from i (x ∷ xs) = ap suc (length-index_from (i + 1) xs)

-- A list at whose positions no token stands twice.
IsDistinct-of_unique :
    (xs : List String)
    → ((x : String) (i j : ℕ) → get_elem? xs i ≡ some x → get_elem? xs j ≡ some x → i ≡ j)
    → IsDistinct xs
IsDistinct-of_unique [] unique = tt
IsDistinct-of_unique (x ∷ xs) unique = (
  All-of_mem (λ y. (x == y) ≡ false) xs
      (λ y m.
        let (j, at) = get_elem?_of_mem m in
        elim (Bool-cases (x == y)) [
          | inl same ↦
              absurd (let z = unique y 0 (suc j) (ap some ((==_iff x y).0 same)) at in omega arith)
          | inr other ↦ other
        ]),
  IsDistinct-of_unique xs (λ y i j a b. omega (arith, unique y (suc i) (suc j) a b)),
)

IsVocab-IsDistinct : (t : Tables) → IsVocab t → IsDistinct t.id_to_token
IsVocab-IsDistinct t inverse =
    IsDistinct-of_unique t.id_to_token
      (λ x i j a b. let p = (inverse x i).1 a in let q = (inverse x j).1 b in grind arith)

module _ (rt : Runtime) (tok : CommandTokenizer rt) where
  loaded :
      (st : Stored rt) (tokens : List String)
      → place_all (replicate (length st.vocab) "") st.vocab ≡ some tokens
      → load rt st
        ≡ some (record {
          config = st.config;
          tables = record { token_to_id = st.vocab; id_to_token = tokens };
        })
  unfolding load
  loaded st tokens e = rw (e, load)

  -- A tokenizer whose tables are inverse to each other is restored: `load` finds no bad index, the
  -- configuration and the list of tokens are the same, and the restored tables are inverse to each
  -- other, so every token has the id that it had.
  pub load-save :
      IsVocab tok.tables
      → (restored : CommandTokenizer rt) × (load rt (save rt tok) ≡ some restored)
        × (restored.config ≡ tok.config)
        × (restored.tables.id_to_token ≡ tok.tables.id_to_token)
        × IsVocab restored.tables
  unfolding save
  load-save inverse =
      let ids = tok.tables.id_to_token in
      let distinct = IsVocab-IsDistinct tok.tables inverse in
      let stored = enumerate_tokens-index 0 [] ids distinct (All-of_mem _ ids (λ y m. refl)) in
      let vocab = index_from 0 ids in
      let restored : CommandTokenizer rt = record {
        config = tok.config;
        tables = record { token_to_id = vocab; id_to_token = ids };
      } in
      let saved : Stored rt = record { vocab = vocab; config = tok.config } in
      (
        restored,
        ap (λ v. load rt (record { vocab = v; config = tok.config })) stored
            ∙ loaded saved ids (
                ap (λ n. place_all (replicate n "") vocab) (length-index_from 0 ids)
                ∙ place_all-index 0 [] ids refl),
        refl,
        refl,
        λ token i. (
          λ h.
              let (j, e, at) = lookup-index_from token ids 0 i h in
              let same : i ≡ j = omega arith in rw same at,
          λ h. index_from-lookup token ids 0 i distinct h ∙ ap some (omega arith),
        ),
      )
