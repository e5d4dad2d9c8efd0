-- ===== src/Storage/Postgres.antt =====
-- storage/postgres.go: the query that List sends, and the adapter over a database, whose calls are a
-- parameter. `number` is strconv.Itoa.
pub mod Adapter
pub mod Tests
pub mod Documents
pub mod Refines
use Prim.Native.String.{String, ◌++◌ as ◌#◌}
use qoe_test_harness.Prelude.{
  ℕ, suc, ◌+◌, ◌≡◌, refl, sym, ap, ap₂, ◌∙◌, Bool, true, false, not, List, [], ◌∷◌, ◌++◌, map,
  append-nil, append_assoc, length, ltb, if◌then◌else◌, arith,
}
use qoe_test_harness.Prelude.Int.{ℤ, pos, eq_int}
use qoe_test_harness.Prelude.Texts.{str_eq}
use qoe_test_harness.Storage.{Filter, limit}

-- An argument of the query.
pub data Arg : Type 0 where
  text : String → Arg
  int : ℤ → Arg
  bytes : List ℕ → Arg

pub record Built : Type 0 where
  pub conditions : List String
  pub args : List Arg

-- strings.Join.
abbrev pub join : List String → String → String
join [] sep = ""
join (s ∷ []) sep = s
join (s ∷ t ∷ rest) sep = s # (sep # join (t ∷ rest) sep)

module _ (number : ℕ → String) where
  -- An argument, and a condition on it by its place.
  abbrev pub push : String → Arg → Built → Built
  push left arg q = record {
    conditions = q.conditions ++ ((left # number (length (q.args ++ (arg ∷ [])))) ∷ []);
    args = q.args ++ (arg ∷ []);
  }

  -- The function `add`.
  unfoldable pub add : String → String → Built → Built
  add col val q = if not (str_eq val "") then push (col # " = $") (text val) q else q

  unfoldable pub built : Filter → Built
  unfolding add
  built f =
      let named = add "verdict" f.verdict (
        add "device_class" f.device_class
          (add "region" f.region (add "isp" f.isp (record { conditions = []; args = [] })))) in
      if not (eq_int f.since_unix_ms (pos 0))
      then push "started_at_ms >= $" (int f.since_unix_ms) named
      else named

  -- The text of the query and its arguments.
  unfoldable pub list_query : Filter → String × List Arg
  unfolding built
  list_query f =
      let q = built f in
      let selected =
        if ltb 0 (length q.conditions)
        then "SELECT payload FROM runs" # (" WHERE " # join q.conditions " AND ")
        else "SELECT payload FROM runs" in
      let args = q.args ++ (int (pos (limit f)) ∷ []) in
      (selected # (" ORDER BY started_at_ms DESC LIMIT $" # number (length args)), args)

  -- The conditions that a filter sets, each with its value.
  abbrev pub if_set : Bool → String → Arg → List (String × Arg)
  if_set set left arg = if set then (left, arg) ∷ [] else []

  abbrev pub wanted : Filter → List (String × Arg)
  wanted f =
      if_set (not (str_eq f.isp "")) "isp = $" (text f.isp)
      ++ (if_set (not (str_eq f.region "")) "region = $" (text f.region)
          ++ (if_set (not (str_eq f.device_class "")) "device_class = $" (text f.device_class)
              ++ (if_set (not (str_eq f.verdict "")) "verdict = $" (text f.verdict)
                  ++ if_set (not (eq_int f.since_unix_ms (pos 0))) "started_at_ms >= $"
                      (int f.since_unix_ms))))

  -- Conditions whose placeholders count up from `k`.
  abbrev pub numbered : ℕ → List (String × Arg) → List String
  numbered k [] = []
  numbered k ((left, arg) ∷ rest) = (left # number k) ∷ numbered (k + 1) rest

  abbrev values : List (String × Arg) → List Arg
  values cs = map (λ c. c.1) cs

  -- What has been built of the conditions `cs`.
  abbrev stage : List (String × Arg) → Built
  stage cs = record { conditions = numbered 1 cs; args = values cs }

  numbered-append :
      (cs : List (String × Arg)) (k : ℕ) (left : String) (arg : Arg)
      → numbered k (cs ++ ((left, arg) ∷ []))
        ≡ numbered k cs ++ ((left # number (k + length cs)) ∷ [])
  numbered-append [] k left arg = ap (λ n. (left # number n) ∷ []) (omega arith)
  numbered-append ((l, a) ∷ cs) k left arg =
      ap (λ t. (l # number k) ∷ t)
        (numbered-append cs (k + 1) left arg
          ∙ ap (λ n. numbered (k + 1) cs ++ ((left # number n) ∷ [])) (omega arith))

  values-append :
      (cs : List (String × Arg)) (left : String) (arg : Arg)
      → values (cs ++ ((left, arg) ∷ [])) ≡ values cs ++ (arg ∷ [])
  values-append [] left arg = refl
  values-append (c ∷ cs) left arg = ap (λ t. c.1 ∷ t) (values-append cs left arg)

  length-values :
      (cs : List (String × Arg)) (arg : Arg) → length (values cs ++ (arg ∷ [])) ≡ 1 + length cs
  length-values [] arg = omega arith
  length-values (c ∷ cs) arg = omega (arith, length-values cs arg)

  push-stage :
      (left : String) (arg : Arg) (cs : List (String × Arg))
      → push left arg (stage cs) ≡ stage (cs ++ ((left, arg) ∷ []))
  push-stage left arg cs =
      ap₂ (λ c a. record { conditions = c; args = a })
        (ap (λ n. numbered 1 cs ++ ((left # number n) ∷ [])) (length-values cs arg)
          ∙ sym (numbered-append cs 1 left arg))
        (sym (values-append cs left arg))

  pushed_if :
      (set : Bool) (left : String) (arg : Arg) (cs : List (String × Arg)) (q : Built)
      → q ≡ stage cs
      → (if set then push left arg q else q) ≡ stage (cs ++ if_set set left arg)
  pushed_if true left arg cs q e = ap (push left arg) e ∙ push-stage left arg cs
  pushed_if false left arg cs q e = e ∙ ap stage (sym (append-nil cs))

  built-stage : (f : Filter) → built f ≡ stage (wanted f)
  unfolding built add
  built-stage f =
      let a = if_set (not (str_eq f.isp "")) "isp = $" (text f.isp) in
      let b = if_set (not (str_eq f.region "")) "region = $" (text f.region) in
      let c = if_set (not (str_eq f.device_class "")) "device_class = $" (text f.device_class) in
      let d = if_set (not (str_eq f.verdict "")) "verdict = $" (text f.verdict) in
      let e =
        if_set (not (eq_int f.since_unix_ms (pos 0))) "started_at_ms >= $" (int f.since_unix_ms) in
      pushed_if _ "started_at_ms >= $" (int f.since_unix_ms) (((a ++ b) ++ c) ++ d) _ (
        pushed_if _ "verdict = $" (text f.verdict) ((a ++ b) ++ c) _ (
          pushed_if _ "device_class = $" (text f.device_class) (a ++ b) _ (
            pushed_if _ "region = $" (text f.region) a _
              (pushed_if _ "isp = $" (text f.isp) [] _ refl))))
      ∙ ap stage (
          append_assoc ((a ++ b) ++ c) d e
          ∙ append_assoc (a ++ b) c (d ++ e)
          ∙ append_assoc a b (c ++ (d ++ e)))

  length-numbered : (k : ℕ) (cs : List (String × Arg)) → length (numbered k cs) ≡ length cs
  length-numbered k [] = refl
  length-numbered k (c ∷ cs) = ap suc (length-numbered (k + 1) cs)

  -- The query asks for each condition that the filter sets and no other, in one order, and the k-th condition refers to the k-th
  -- argument, which is its value. The last argument is the limit, to which the query's end refers.
  pub list_query_lem :
      (f : Filter)
      → ((list_query f).1 ≡ map (λ c. c.1) (wanted f) ++ (int (pos (limit f)) ∷ []))
        × ((list_query f).0
            ≡ (if ltb 0 (length (wanted f))
                then "SELECT payload FROM runs" # (" WHERE " # join (numbered 1 (wanted f)) " AND ")
                else "SELECT payload FROM runs")
              # (" ORDER BY started_at_ms DESC LIMIT $" # number (length (wanted f) + 1)))
  unfolding list_query
  list_query_lem f =
      let last = int (pos (limit f)) in
      (
        ap (λ q. q.args ++ (last ∷ [])) (built-stage f),
        ap
              (λ q.
                (if ltb 0 (length q.conditions)
                  then "SELECT payload FROM runs" # (" WHERE " # join q.conditions " AND ")
                  else "SELECT payload FROM runs")
                # (" ORDER BY started_at_ms DESC LIMIT $"
                    # number (length (q.args ++ (last ∷ [])))))
              (built-stage f)
            ∙ ap₂
                (λ m n.
                  (if ltb 0 m
                    then "SELECT payload FROM runs"
                      # (" WHERE " # join (numbered 1 (wanted f)) " AND ")
                    else "SELECT payload FROM runs")
                  # (" ORDER BY started_at_ms DESC LIMIT $" # number n))
                (length-numbered 1 (wanted f)) (omega (arith, length-values (wanted f) last)),
      )
