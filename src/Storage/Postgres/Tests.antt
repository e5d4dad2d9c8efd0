-- ===== src/Storage/Postgres/Tests.antt =====
-- The query of List as a selection by tests, each on a column and on the argument of its placeholder.
use Prim.Native.String.{String, ◌++◌ as ◌#◌}
use qoe_test_harness.Prelude.{
  ℕ, suc, ◌+◌, ◌-◌, ◌≡◌, refl, sym, ap, ap₂, ◌∙◌, Bool, true, false, not, ◌&&◌, Option, some, none,
  List, [], ◌∷◌, ◌++◌, map, append_assoc, length, length-append, get_elem?, ltb, if◌then◌else◌,
  arith,
}
use qoe_test_harness.Prelude.Int.{ℤ, pos, eq_int, lt_int}
use qoe_test_harness.Prelude.Texts.{str_eq}
use qoe_test_harness.Prelude.Floats.{Float64}
use qoe_test_harness.Protocol.Bytes.{to_int64}
use qoe_test_harness.Report.{RunReport}
use qoe_test_harness.Storage.{Filter, limit, matches}
use qoe_test_harness.Storage.Postgres.{
  Arg, text, int, bytes, join, wanted, numbered, if_set, list_query, list_query_lem,
}

-- A row of the table of storage/schema.sql.
pub record Row : Type 0 where
  pub run_id : String
  pub started_at_ms : ℤ
  pub isp : String
  pub region : String
  pub device_class : String
  pub verdict : String
  pub provisioned_down_bps : ℤ
  pub payload : List ℕ

pub data Column : Type 0 where
  of_isp of_region of_device_class of_verdict : Column

-- Equality of a column with an argument; or a start no earlier than one.
pub data Test : Type 0 where
  same : Column → Test
  since : Test

abbrev pub value : Column → Row → String
value of_isp x = x.isp
value of_region x = x.region
value of_device_class x = x.device_class
value of_verdict x = x.verdict

-- The text of a test, up to the number of its placeholder.
abbrev pub left_of : Test → String
left_of (same of_isp) = "isp = $"
left_of (same of_region) = "region = $"
left_of (same of_device_class) = "device_class = $"
left_of (same of_verdict) = "verdict = $"
left_of since = "started_at_ms >= $"

abbrev pub passes : Test → Row → Option Arg → Bool
passes t x none = false
passes (same c) x (some (text s)) = str_eq (value c x) s
passes (same c) x (some (int z)) = false
passes (same c) x (some (bytes b)) = false
passes since x (some (text s)) = false
passes since x (some (int z)) = not (lt_int x.started_at_ms z)
passes since x (some (bytes b)) = false

-- The tests with the numbers of their placeholders, which count from 1.
abbrev pub meets : List Arg → Row → List (Test × ℕ) → Bool
meets args x [] = true
meets args x ((t, k) ∷ ts) = passes t x (get_elem? args (k - 1)) && meets args x ts

-- A selection by tests, limited by the argument of placeholder `k`.
unfoldable pub select_text : (ℕ → String) → List (Test × ℕ) → ℕ → String
select_text number ts k =
    (if ltb 0 (length ts)
      then "SELECT payload FROM runs"
        # (" WHERE " # join (map (λ t. left_of t.0 # number t.1) ts) " AND ")
      else "SELECT payload FROM runs")
    # (" ORDER BY started_at_ms DESC LIMIT $" # number k)

abbrev pub if_some : Bool → Test → Arg → List (Test × Arg)
if_some set t a = if set then (t, a) ∷ [] else []

-- The tests of a filter.
abbrev pub tests : Filter → List (Test × Arg)
tests f =
    if_some (not (str_eq f.isp "")) (same of_isp) (text f.isp)
    ++ (if_some (not (str_eq f.region "")) (same of_region) (text f.region)
        ++ (if_some (not (str_eq f.device_class "")) (same of_device_class) (text f.device_class)
            ++ (if_some (not (str_eq f.verdict "")) (same of_verdict) (text f.verdict)
                ++ if_some (not (eq_int f.since_unix_ms (pos 0))) since (int f.since_unix_ms))))

abbrev pub placed : ℕ → List (Test × Arg) → List (Test × ℕ)
placed k [] = []
placed k ((t, a) ∷ ts) = (t, k) ∷ placed (k + 1) ts

abbrev pub args_of : List (Test × Arg) → List Arg
args_of ts = map (λ t. t.1) ts

module _ (number : ℕ → String) where
  abbrev spelled : List (Test × Arg) → List (String × Arg)
  spelled ts = map (λ t. (left_of t.0, t.1)) ts

  spelled-if_some :
      (set : Bool) (t : Test) (a : Arg) (ts : List (Test × Arg)) (cs : List (String × Arg))
      → cs ≡ spelled ts
      → if_set number set (left_of t) a ++ cs ≡ spelled (if_some set t a ++ ts)
  spelled-if_some true t a ts cs e = ap (λ l. (left_of t, a) ∷ l) e
  spelled-if_some false t a ts cs e = e

  last_spelled :
      (set : Bool) (t : Test) (a : Arg)
      → if_set number set (left_of t) a ≡ spelled (if_some set t a)
  last_spelled true t a = refl
  last_spelled false t a = refl

  wanted-spelled : (f : Filter) → wanted number f ≡ spelled (tests f)
  wanted-spelled f = spelled-if_some _ (same of_isp) (text f.isp) _ _ (
      spelled-if_some _ (same of_region) (text f.region) _ _ (
        spelled-if_some _ (same of_device_class) (text f.device_class) _ _ (
          spelled-if_some _ (same of_verdict) (text f.verdict) _ _
            (last_spelled _ since (int f.since_unix_ms)))))

  numbered-spelled :
      (k : ℕ) (ts : List (Test × Arg))
      → numbered number k (spelled ts) ≡ map (λ t. left_of t.0 # number t.1) (placed k ts)
  numbered-spelled k [] = refl
  numbered-spelled k ((t, a) ∷ ts) =
      ap (λ l. (left_of t # number k) ∷ l) (numbered-spelled (k + 1) ts)

  values-spelled : (ts : List (Test × Arg)) → map (λ c. c.1) (spelled ts) ≡ args_of ts
  values-spelled [] = refl
  values-spelled (t ∷ ts) = ap (λ l. t.1 ∷ l) (values-spelled ts)

  length-spelled : (ts : List (Test × Arg)) → length (spelled ts) ≡ length ts
  length-spelled [] = refl
  length-spelled (t ∷ ts) = ap suc (length-spelled ts)

  length-placed : (k : ℕ) (ts : List (Test × Arg)) → length (placed k ts) ≡ length ts
  length-placed k [] = refl
  length-placed k (t ∷ ts) = ap suc (length-placed (k + 1) ts)

  abbrev shape : ℕ → List String → ℕ → String
  shape m conditions k =
      (if ltb 0 m
        then "SELECT payload FROM runs" # (" WHERE " # join conditions " AND ")
        else "SELECT payload FROM runs")
      # (" ORDER BY started_at_ms DESC LIMIT $" # number k)

  -- The query selects by the tests of the filter, and its arguments are theirs and the limit.
  pub list_query-selects :
      (f : Filter)
      → ((list_query number f).0 ≡ select_text number (placed 1 (tests f)) (length (tests f) + 1))
        × ((list_query number f).1 ≡ args_of (tests f) ++ (int (pos (limit f)) ∷ []))
  unfolding select_text
  list_query-selects f =
      let (args, query) = list_query_lem number f in
      let n : length (wanted number f) ≡ length (tests f) =
        ap length (wanted-spelled f) ∙ length-spelled (tests f) in
      (
        query
            ∙ ap (λ m. shape m (numbered number 1 (wanted number f)) (length (wanted number f) + 1))
                (n ∙ sym (length-placed 1 (tests f)))
            ∙ ap (λ c. shape (length (placed 1 (tests f))) c (length (wanted number f) + 1))
                (ap (numbered number 1) (wanted-spelled f) ∙ numbered-spelled 1 (tests f))
            ∙ ap
                (λ (m : ℕ).
                  shape (length (placed 1 (tests f)))
                    (map (λ t. left_of t.0 # number t.1) (placed 1 (tests f))) (m + 1))
                n,
        args
            ∙ ap (λ l. l ++ (int (pos (limit f)) ∷ []))
                (ap (map (λ c. c.1)) (wanted-spelled f) ∙ values-spelled (tests f)),
      )

-- Whether a row passes all tests, each with its own argument.
abbrev passes_all : Row → List (Test × Arg) → Bool
passes_all x [] = true
passes_all x ((t, a) ∷ ts) = passes t x (some a) && passes_all x ts

get_elem?-after :
    (pre : List Arg) (a : Arg) (post : List Arg)
    → get_elem? (pre ++ (a ∷ post)) (length pre + 1 - 1) ≡ some a
get_elem?-after pre a post = ap (get_elem? (pre ++ (a ∷ post))) (omega arith) ∙ at_end pre
  where
    at_end : (xs : List Arg) → get_elem? (xs ++ (a ∷ post)) (length xs) ≡ some a
    at_end [] = refl
    at_end (x ∷ xs) = at_end xs

meets-placed :
    (pre : List Arg) (ts : List (Test × Arg)) (post : List Arg) (x : Row)
    → meets (pre ++ (args_of ts ++ post)) x (placed (length pre + 1) ts) ≡ passes_all x ts
meets-placed pre [] post x = refl
meets-placed pre ((t, a) ∷ ts) post x =
    ap₂ (λ p q. p && q) (ap (passes t x) (get_elem?-after pre a (args_of ts ++ post)))
      (ap₂ (λ l k. meets l x (placed k ts)) (sym (append_assoc pre (a ∷ []) (args_of ts ++ post)))
          (omega (arith, length-append pre (a ∷ [])))
        ∙ meets-placed (pre ++ (a ∷ [])) ts post x)

passes_all-if_some :
    (set : Bool) (t : Test) (a : Arg) (ts : List (Test × Arg)) (x : Row) (rest : Bool)
    → passes_all x ts ≡ rest
    → passes_all x (if_some set t a ++ ts) ≡ ((if set then passes t x (some a) else true) && rest)
passes_all-if_some true t a ts x rest e = ap (λ b. passes t x (some a) && b) e
passes_all-if_some false t a ts x rest e = e

passes_last :
    (set : Bool) (t : Test) (a : Arg) (x : Row)
    → passes_all x (if_some set t a) ≡ (if set then passes t x (some a) else true)
passes_last true t a x = ground arith
passes_last false t a x = refl

module _ (fl : Float64) where
  -- The row that Save writes for a report, whose payload is `payload`.
  abbrev pub row_of : RunReport fl → List ℕ → Row
  row_of r payload = record {
    run_id = r.meta.run_id;
    started_at_ms = r.meta.started_at_unix_ms;
    isp = r.meta.isp;
    region = r.meta.region;
    device_class = r.meta.device_class;
    verdict = r.result.verdict;
    provisioned_down_bps = to_int64 r.meta.provisioned_down_bps;
    payload = payload;
  }

  matches-eq :
      (f : Filter) (r : RunReport fl)
      → matches fl f r ≡ (
          (if not (str_eq f.isp "") then str_eq r.meta.isp f.isp else true)
          && ((if not (str_eq f.region "") then str_eq r.meta.region f.region else true)
              && ((if not (str_eq f.device_class "")
                    then str_eq r.meta.device_class f.device_class
                    else true)
                  && ((if not (str_eq f.verdict "")
                        then str_eq r.result.verdict f.verdict
                        else true)
                      && (if not (eq_int f.since_unix_ms (pos 0))
                          then not (lt_int r.meta.started_at_unix_ms f.since_unix_ms)
                          else true)))))
  unfolding matches
  matches-eq f r = ground arith

  -- The row of a report meets the query's tests exactly when the report matches the filter.
  pub meets-matches :
      (f : Filter) (r : RunReport fl) (payload : List ℕ)
      → meets
          (args_of (tests f) ++ (int (pos (limit f)) ∷ []))
          (row_of r payload)
          (placed 1 (tests f))
        ≡ matches fl f r
  meets-matches f r payload =
      let x = row_of r payload in
      let verdict = not (str_eq f.verdict "") in
      let class = not (str_eq f.device_class "") in
      let region = not (str_eq f.region "") in
      let started = if_some (not (eq_int f.since_unix_ms (pos 0))) since (int f.since_unix_ms) in
      let judged = if_some verdict (same of_verdict) (text f.verdict) ++ started in
      let classed = if_some class (same of_device_class) (text f.device_class) ++ judged in
      let placed_in = if_some region (same of_region) (text f.region) ++ classed in
      meets-placed [] (tests f) (int (pos (limit f)) ∷ []) x
      ∙ passes_all-if_some (not (str_eq f.isp "")) (same of_isp) (text f.isp) placed_in x _ (
          passes_all-if_some region (same of_region) (text f.region) classed x _ (
            passes_all-if_some class (same of_device_class) (text f.device_class) judged x _ (
              passes_all-if_some verdict (same of_verdict) (text f.verdict) started x _ (
                passes_last (not (eq_int f.since_unix_ms (pos 0))) since (int f.since_unix_ms) x))))
      ∙ sym (matches-eq f r)
