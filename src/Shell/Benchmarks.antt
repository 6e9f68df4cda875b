-- ===== src/Shell/Benchmarks.antt =====
-- The benchmarks of src/main_client.cpp: their random values, the numbers that they print, and the
-- commands that do the same. The random draws and the durations are parameters, and so is the
-- arithmetic on `double`.
use hpe_distributed_key_valu.Prelude.{
  ℕ, zero, suc, ◌+◌, ◌^◌, ◌≤◌, ◌<◌, ◌≡◌, refl, ◌∙◌, Bool, false, List, [], ◌∷◌, ◌++◌, Option, none,
  some, any, All, All-get_or, get_or, length, if◌then◌else◌, arith, Text, codes, ℤ, pos,
}
use hpe_distributed_key_valu.Decimal.Parse.{is_space}
use hpe_distributed_key_valu.Store.{Segment}
use hpe_distributed_key_valu.Client.{IkvClient}
use hpe_distributed_key_valu.ServerMain.{loop_count}
use hpe_distributed_key_valu.Shell.{
  Dist, insert_all, fetch_all, num_operations, benchmark, benchmark1, run_lines,
}
use hpe_distributed_key_valu.Shell.Words.{IsWord, unwords}
use hpe_distributed_key_valu.Shell.Commands.{put_pair, get_value, spelled, run-executed}

abbrev pub charset : Text
charset = codes "abcdefghijklmnopqrstuvwxyzABCDEFGHIJKLMNOPQRSTUVWXYZ0123456789"

-- The loop of `generateRandomString`; `dis i` is the i-th draw.
abbrev draw_chars : ℕ → (ℕ → ℕ) → Text
draw_chars zero dis = []
draw_chars (suc left) dis = get_or charset (dis 0) 0 ∷ draw_chars left (λ i. dis (suc i))

unfoldable pub generate_random_string : ℤ → (ℕ → ℕ) → Text
generate_random_string length dis = draw_chars (loop_count length) dis

abbrev pub value_size : ℤ
value_size = pos 3

-- The value for the key `i`, of which `draws i` are the draws.
abbrev pub random_values : (ℕ → ℕ → ℕ) → ℕ → Text
random_values draws i = generate_random_string value_size (draws i)

-- `double`: the time in milliseconds of a count of microseconds, sums, quotients and `<`.
pub record Times : Type 1 where
  pub Double : Type 0
  pub zero_double : Double
  pub milliseconds : ℕ → Double
  pub plus : Double → Double → Double
  pub quotient : Double → ℕ → Double
  pub less : Double → Double → Bool

pub record Metrics (Double : Type 0) : Type 0 where
  pub avg_time : Double
  pub min_time : Double
  pub max_time : Double
  pub successful_fetches : ℕ

module _ (T : Times) where
  -- The microseconds of each fetch, `durations i` for the i-th, as `fetch_times`.
  abbrev pub fetch_times : ℕ → (ℕ → ℕ) → List T.Double
  fetch_times zero durations = []
  fetch_times (suc n) durations =
      T.milliseconds (durations 0) ∷ fetch_times n (λ i. durations (suc i))

  -- `std::accumulate` from 0.0, and `std::min_element` and `std::max_element` of a vector that is
  -- not empty.
  abbrev pub accumulate : T.Double → List T.Double → T.Double
  accumulate total [] = total
  accumulate total (t ∷ ts) = accumulate (T.plus total t) ts

  abbrev pub min_element : T.Double → List T.Double → T.Double
  min_element best [] = best
  min_element best (t ∷ ts) = min_element (if T.less t best then t else best) ts

  abbrev pub max_element : T.Double → List T.Double → T.Double
  max_element best [] = best
  max_element best (t ∷ ts) = max_element (if T.less best t then t else best) ts

  -- What is printed of the fetches; nothing where there was none.
  unfoldable pub fetch_metrics : List T.Double → Option (Metrics T.Double)
  fetch_metrics [] = none
  fetch_metrics (t ∷ ts) = some (record {
    avg_time = T.quotient (accumulate T.zero_double (t ∷ ts)) (length (t ∷ ts));
    min_time = min_element t ts;
    max_time = max_element t ts;
    successful_fetches = length (t ∷ ts);
  })

charset-All : All (λ c. is_space c ≡ false) charset
charset-All = none_blank charset refl
  where
    none_blank : (t : Text) → any is_space t ≡ false → All (λ c. is_space c ≡ false) t
    none_blank [] h = tt
    none_blank (c ∷ t) h = ground (arith, none_blank t)

draw_chars-All :
    (n : ℕ) (dis : ℕ → ℕ)
    → ((i : ℕ) → dis i < 62)
    → All (λ c. is_space c ≡ false) (draw_chars n dis)
draw_chars-All zero dis h = tt
draw_chars-All (suc n) dis h = (
  All-get_or (λ c. is_space c ≡ false) charset (dis 0) 0 charset-All (h 0),
  draw_chars-All n (λ i. dis (suc i)) (λ i. h (suc i)),
)

random_values-IsWord :
    (draws : ℕ → ℕ → ℕ) → ((i j : ℕ) → draws i j < 62) → (i : ℕ) → IsWord (random_values draws i)
unfolding generate_random_string
random_values-IsWord draws h i =
    let all = draw_chars-All 3 (draws i) (h i) in (all.0, (all.1.0, all.1.1.0))

-- The lines that a user would type.
abbrev pub put_lines : (ℕ → Text) → ℕ → ℕ → List Text
put_lines values zero i = []
put_lines values (suc n) i =
    unwords (spelled (put_pair (pos i) (values i) [])) ∷ put_lines values n (suc i)

abbrev pub get_lines : (ℕ → ℕ) → ℕ → ℕ → List Text
get_lines keys zero i = []
get_lines keys (suc n) i = unwords (spelled (get_value (pos (keys i)))) ∷ get_lines keys n (suc i)

module _ (S : Segment) (C : IkvClient) (values : ℕ → Text) (keys : ℕ → ℕ) where
  run-put_lines :
      (typed : ℕ → Text) (n i : ℕ) (more : List Text) (d : Dist S C)
      → ((j : ℕ) → IsWord (typed j))
      → i + n ≤ 2 ^ 31
      → run_lines S C values keys (put_lines typed n i ++ more) d
        ≡ run_lines S C values keys more (insert_all S C typed n i d)
  unfolding run_lines insert_all
  run-put_lines typed zero i more d words small = refl
  run-put_lines typed (suc n) i more d words small =
      rw
        (
          run_lines,
          run-executed S C values keys (put_pair (pos i) (typed i) []) d
              (omega (arith, small), (words i, tt)),
        )
        (run-put_lines typed n (suc i) more _ words (omega (arith, small)))

  run-get_lines :
      (asked : ℕ → ℕ) (n i : ℕ) (d : Dist S C)
      → ((j : ℕ) → j < i + n → asked j < 2 ^ 31)
      → run_lines S C values keys (get_lines asked n i) d ≡ some (fetch_all S C asked n i d)
  unfolding run_lines fetch_all
  run-get_lines asked zero i d small = refl
  run-get_lines asked (suc n) i d small =
      rw
        (
          run_lines,
          run-executed S C values keys (get_value (pos (asked i))) d (small i (omega arith), tt),
        )
        (run-get_lines asked n (suc i) _ (λ j lt. small j (omega (arith, lt))))

  -- A benchmark leaves the client as it is after the user has typed a `put` for each of its keys and
  -- a `get` for each of its fetches, with the same values and keys, if the draws are within the
  -- character set and the drawn keys are values of an `int`.
  pub benchmark-run_lines :
      (draws : ℕ → ℕ → ℕ) (asked : ℕ → ℕ) (d : Dist S C)
      → ((i j : ℕ) → draws i j < length charset)
      → ((j : ℕ) → j < num_operations → asked j < 2 ^ 31)
      → (run_lines S C values keys
            (put_lines (random_values draws) num_operations 1
              ++ get_lines (λ i. i) num_operations 1)
            d
          ≡ some (benchmark S C (random_values draws) d))
        × (run_lines S C values keys
              (put_lines (random_values draws) num_operations 1 ++ get_lines asked num_operations 0)
              d
            ≡ some (benchmark1 S C (random_values draws) asked d))
  unfolding benchmark benchmark1
  benchmark-run_lines draws asked d within small = (
    run-put_lines (random_values draws) num_operations 1 _ d (random_values-IsWord draws within)
          (omega arith)
        ∙ run-get_lines (λ i. i) num_operations 1 _ (λ j lt. omega (arith, lt)),
    run-put_lines (random_values draws) num_operations 1 _ d (random_values-IsWord draws within)
          (omega arith)
        ∙ run-get_lines asked num_operations 0 _ (λ j lt. small j (omega (arith, lt))),
  )
