-- ===== src/Shell/Words.antt =====
-- About `parseCommand` of src/main_client.cpp: its rounds, and the words of a line.
use hpe_distributed_key_valu.Prelude.{
  ℕ, zero, suc, ◌≤◌, ◌≡◌, refl, sym, ap, ◌∙◌, true, false, inl, inr, List, [], ◌∷◌, ◌++◌, All,
  if◌then◌else◌, length, Text, arith, Bool-cases,
}
use hpe_distributed_key_valu.Decimal.Parse.{is_space, skip_spaces}
use hpe_distributed_key_valu.Shell.{take_word, drop_word, parse_loop, parse_command}

-- The reference: from the right, a blank ends the word that began behind it.
abbrev push : Text × List Text → List Text
push ([], ws) = ws
push (c ∷ w, ws) = (c ∷ w) ∷ ws

abbrev grow : ℕ → Text × List Text → Text × List Text
grow c (w, ws) = (c ∷ w, ws)

abbrev tokens : Text → Text × List Text
tokens [] = ([], [])
tokens (c ∷ s) = if is_space c then ([], push (tokens s)) else grow c (tokens s)

abbrev pub words : Text → List Text
words s = push (tokens s)

tokens_blank : (c : ℕ) (s : Text) → is_space c ≡ true → tokens (c ∷ s) ≡ ([], words s)
tokens_blank c s e = rw e refl

tokens_char : (c : ℕ) (s : Text) → is_space c ≡ false → tokens (c ∷ s) ≡ grow c (tokens s)
tokens_char c s e = rw e refl

words-drop : (s : Text) → tokens s ≡ (take_word s, words (drop_word s))
unfolding take_word drop_word
words-drop [] = refl
words-drop (c ∷ s) = elim (Bool-cases (is_space c)) [
  | inl e ↦ rw e (ap (λ (t : Text × List Text). ([], push t)) (sym (tokens_blank c s e)))
  | inr e ↦ rw e (ap (grow c) (words-drop s))
]

words_skip : (s : Text) → words (skip_spaces s) ≡ words s
unfolding skip_spaces
words_skip [] = refl
words_skip (c ∷ s) = elim (Bool-cases (is_space c)) [
  | inl e ↦ rw e (words_skip s)
  | inr e ↦ rw e (ap push (tokens_char c s e))
]

length-skip : (s : Text) → length (skip_spaces s) ≤ length s
unfolding skip_spaces
length-skip [] = omega arith
length-skip (c ∷ s) = elim (Bool-cases (is_space c)) [
  | inl e ↦ rw e (omega (arith, length-skip s))
  | inr e ↦ rw e (omega arith)
]

length-drop : (s : Text) → length (drop_word s) ≤ length s
unfolding drop_word
length-drop [] = omega arith
length-drop (c ∷ s) = elim (Bool-cases (is_space c)) [
  | inl e ↦ rw e (omega arith)
  | inr e ↦ rw e (omega (arith, length-drop s))
]

-- What `skip_spaces` leaves does not begin with a blank.
abbrev IsTrimmed : Text → Type 0
IsTrimmed [] = Unit
IsTrimmed (c ∷ s) = is_space c ≡ false

skip-IsTrimmed : (s : Text) → IsTrimmed (skip_spaces s)
unfolding skip_spaces
skip-IsTrimmed [] = tt
skip-IsTrimmed (c ∷ s) = elim (Bool-cases (is_space c)) [
  | inl e ↦ rw e (skip-IsTrimmed s)
  | inr e ↦ rw e e
]

take_char : (c : ℕ) (s : Text) → is_space c ≡ false → take_word (c ∷ s) ≡ c ∷ take_word s
unfolding take_word
take_char c s e = rw e refl

drop_char : (c : ℕ) (s : Text) → is_space c ≡ false → drop_word (c ∷ s) ≡ drop_word s
unfolding drop_word
drop_char c s e = rw e refl

words_front :
    (c : ℕ) (s : Text)
    → is_space c ≡ false
    → words (c ∷ s) ≡ take_word (c ∷ s) ∷ words (drop_word (c ∷ s))
words_front c s e =
    ap push (tokens_char c s e ∙ ap (grow c) (words-drop s))
    ∙ (sym (ap (λ (t : Text). t ∷ words (drop_word s)) (take_char c s e))
        ∙ sym (ap (λ (t : Text). take_word (c ∷ s) ∷ words t) (drop_char c s e)))

-- One round, given that the others are enough.
loop_round :
    (f : ℕ) (s : Text)
    → ((t : Text) → length t ≤ f → parse_loop f t ≡ words t)
    → length s ≤ suc f
    → parse_loop (suc f) s ≡ words s
unfolding parse_loop
loop_round f s ih h =
    by_front (skip_spaces s) (skip-IsTrimmed s) (omega (arith, length-skip s)) ∙ words_skip s
  where
    by_front :
        (t : Text)
        → IsTrimmed t
        → length t ≤ suc f
        → (elim t [
          | [] ↦ []
          | c ∷ rest ↦ take_word (c ∷ rest) ∷ parse_loop f (drop_word (c ∷ rest))
        ])
          ≡ words t
    by_front [] h lt = refl
    by_front (c ∷ t) h lt =
        ap (λ (ws : List Text). take_word (c ∷ t) ∷ ws) (ih (drop_word (c ∷ t)) (shorter c t h lt))
        ∙ sym (words_front c t h)
      where
        shorter :
            (c : ℕ) (t : Text)
            → is_space c ≡ false
            → suc (length t) ≤ suc f
            → length (drop_word (c ∷ t)) ≤ f
        shorter c t e lt = rw (drop_char c t e) (omega (arith, length-drop t))

loop-words : (f : ℕ) (s : Text) → length s ≤ f → parse_loop f s ≡ words s
unfolding parse_loop skip_spaces
loop-words zero [] h = refl
loop-words zero (c ∷ s) h = absurd (omega arith)
loop-words (suc f) s h = loop_round f s (loop-words f) h

-- `parseCommand` gives the words of the line as a scan from its end finds them: no round is missing.
pub parse_command-words : (command : Text) → parse_command command ≡ words command
unfolding parse_command
parse_command-words command = loop-words (length command) command (omega arith)

-- A word: at least one character, and no blank.
abbrev pub IsWord : Text → Type 0
IsWord [] = ⊥
IsWord (c ∷ []) = is_space c ≡ false
IsWord (c ∷ d ∷ s) = (is_space c ≡ false) × IsWord (d ∷ s)

-- The words of a line, with one blank behind each but the last.
abbrev pub unwords : List Text → Text
unwords [] = []
unwords (w ∷ []) = w
unwords (w ∷ v ∷ ws) = w ++ (32 ∷ unwords (v ∷ ws))

tokens_word : (w rest : Text) → IsWord w → tokens (w ++ 32 ∷ rest) ≡ (w, words rest)
tokens_word [] rest h = absurd h
tokens_word (c ∷ []) rest h = tokens_char c (32 ∷ rest) h
tokens_word (c ∷ d ∷ w) rest h =
    tokens_char c ((d ∷ w) ++ 32 ∷ rest) h.0 ∙ ap (grow c) (tokens_word (d ∷ w) rest h.1)

tokens_last : (w : Text) → IsWord w → tokens w ≡ (w, [])
tokens_last [] h = absurd h
tokens_last (c ∷ []) h = tokens_char c [] h
tokens_last (c ∷ d ∷ w) h = tokens_char c (d ∷ w) h.0 ∙ ap (grow c) (tokens_last (d ∷ w) h.1)

push_word : (w : Text) (ws : List Text) → IsWord w → push (w, ws) ≡ w ∷ ws
push_word [] ws h = absurd h
push_word (c ∷ w) ws h = refl

words-unwords : (ws : List Text) → All IsWord ws → words (unwords ws) ≡ ws
words-unwords [] h = refl
words-unwords (w ∷ []) h = ap push (tokens_last w h.0) ∙ push_word w [] h.0
words-unwords (w ∷ v ∷ ws) h =
    ap push (tokens_word w (unwords (v ∷ ws)) h.0)
    ∙ (push_word w (words (unwords (v ∷ ws))) h.0
        ∙ ap (λ (vs : List Text). w ∷ vs) (words-unwords (v ∷ ws) h.1))

-- `parseCommand` takes a line of words with single blanks between them apart into these words.
pub parse-unwords : (ws : List Text) → All IsWord ws → parse_command (unwords ws) ≡ ws
parse-unwords ws h = parse_command-words (unwords ws) ∙ words-unwords ws h
