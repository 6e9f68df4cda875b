-- ===== src/Shell/Commands.antt =====
-- About the commands of src/main_client.cpp: lines that spell one, and what they make the client do.
use mathlib.Core.List.{append_assoc}
use hpe_distributed_key_valu.Prelude.{
  ℕ, ◌≡◌, refl, ◌∙◌, false, List, [], ◌∷◌, ◌++◌, some, All, is_empty, Text, codes, ℤ,
}
use hpe_distributed_key_valu.Decimal.{to_string}
use hpe_distributed_key_valu.Decimal.Parse.{is_space}
use hpe_distributed_key_valu.Decimal.RoundTrip.{IsInt, stoi-to_string, to_string_unbroken}
use hpe_distributed_key_valu.Store.{Segment}
use hpe_distributed_key_valu.Client.{IkvClient}
use hpe_distributed_key_valu.Distributor.{get, insert, update, delete_key}
use hpe_distributed_key_valu.Shell.{
  Reply, put_done, update_done, delete_done, value_is, append_words, Dist, run_command, run_words,
  run_line,
}
use hpe_distributed_key_valu.Shell.Words.{IsWord, unwords, parse-unwords}

-- A text without blanks that is not empty is a word.
unbroken-IsWord : (c : ℕ) (s : Text) → All (λ c. is_space c ≡ false) (c ∷ s) → IsWord (c ∷ s)
unbroken-IsWord c [] h = h.0
unbroken-IsWord c (d ∷ s) h = (h.0, unbroken-IsWord d s h.1)

number-IsWord : (key : ℤ) → IsWord (to_string key)
number-IsWord key = by_front (to_string key) (to_string_unbroken key).0 (to_string_unbroken key).1
  where
    by_front :
        (t : Text) → All (λ c. is_space c ≡ false) t → (c : ℕ) × (s : Text) × (t ≡ c ∷ s) → IsWord t
    by_front [] h (c, s, e) = absurd (cc)
    by_front (c ∷ t) h e = unbroken-IsWord c t h

append-unwords : (value : Text) (ws : List Text) → append_words value ws ≡ unwords (value ∷ ws)
append-unwords value [] = refl
append-unwords value (w ∷ []) = refl
append-unwords value (w ∷ v ∷ ws) =
    append-unwords (value ++ 32 ∷ w) (v ∷ ws) ∙ append_assoc value (32 ∷ w) (32 ∷ unwords (v ∷ ws))

-- The commands that reach the distributor. A value is its first word and the others.
pub data Command : Type 0 where
  put_pair : ℤ → Text → List Text → Command
  get_value : ℤ → Command
  update_pair : ℤ → Text → List Text → Command
  delete_pair : ℤ → Command

abbrev pub spelled : Command → List Text
spelled (put_pair key v vs) = codes "put" ∷ to_string key ∷ v ∷ vs
spelled (get_value key) = codes "get" ∷ to_string key ∷ []
spelled (update_pair key v vs) = codes "update" ∷ to_string key ∷ v ∷ vs
spelled (delete_pair key) = codes "delete" ∷ to_string key ∷ []

-- An `int` for the key, and words in the value.
abbrev pub IsCommand : Command → Type 0
IsCommand (put_pair key v vs) = IsInt key × All IsWord (v ∷ vs)
IsCommand (get_value key) = IsInt key × Unit
IsCommand (update_pair key v vs) = IsInt key × All IsWord (v ∷ vs)
IsCommand (delete_pair key) = IsInt key × Unit

module _ (S : Segment) (C : IkvClient) where
  abbrev pub executed : Command → Dist S C → Reply × Dist S C
  executed (put_pair key v vs) d = (put_done, insert S C key (unwords (v ∷ vs)) d)
  executed (get_value key) d = let (value, d') = get S C key d in (value_is value, d')
  executed (update_pair key v vs) d = (update_done, update S C key (unwords (v ∷ vs)) d)
  executed (delete_pair key) d = (delete_done, delete_key S C key d)

  module _ (values : ℕ → Text) (keys : ℕ → ℕ) where
    words-executed :
        (c : Command) (d : Dist S C)
        → IsCommand c
        → run_words S C values keys (spelled c) d ≡ some (executed c d)
    unfolding run_command
    words-executed (put_pair key v vs) d h = rw (stoi-to_string key h.0, append-unwords v vs) refl
    words-executed (get_value key) d h = rw (stoi-to_string key h.0) refl
    words-executed (update_pair key v []) d h = rw (stoi-to_string key h.0) refl
    words-executed (update_pair key v (w ∷ vs)) d h =
        rw (stoi-to_string key h.0, append-unwords v (w ∷ vs)) refl
    words-executed (delete_pair key) d h = rw (stoi-to_string key h.0) refl

    three : {A : Type 0} {a : A} → (a ≡ a) × ((a ≡ a) × (a ≡ a))
    three = (refl, (refl, refl))

    six : {A : Type 0} {a : A} → (a ≡ a) × ((a ≡ a) × ((a ≡ a) × ((a ≡ a) × ((a ≡ a) × (a ≡ a)))))
    six = (refl, (refl, (refl, three)))

    spelled-All : (c : Command) → IsCommand c → All IsWord (spelled c)
    spelled-All (put_pair key v vs) h = (three, (number-IsWord key, h.1))
    spelled-All (get_value key) h = (three, (number-IsWord key, tt))
    spelled-All (update_pair key v vs) h = (six, (number-IsWord key, h.1))
    spelled-All (delete_pair key) h = (six, (number-IsWord key, tt))

    not_empty : (c : Command) → is_empty (unwords (spelled c)) ≡ false
    not_empty (put_pair key v vs) = refl
    not_empty (get_value key) = refl
    not_empty (update_pair key v vs) = refl
    not_empty (delete_pair key) = refl

    -- A line that spells a put, get, update or delete, with an `int` for the key and single blanks
    -- between the words, makes the client call the distributor with that key and with the value as it
    -- was typed, and report what the command reports.
    pub run-executed :
        (c : Command) (d : Dist S C)
        → IsCommand c
        → run_line S C values keys (unwords (spelled c)) d ≡ some (executed c d)
    unfolding run_line
    run-executed c d h =
        rw (not_empty c, parse-unwords (spelled c) (spelled-All c h)) (words-executed c d h)
