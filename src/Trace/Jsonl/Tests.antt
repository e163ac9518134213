-- ===== src/Trace/Jsonl/Tests.antt =====
-- src/trace/jsonl.rs on a disk of one file and a format that counts in unary.
use text.Mathlib.Text.{◌==◌ as str_eq}
use text.Mathlib.TextEquality.{eq_iff}
use kvflow_sim.Base.{
  ℕ, zero, suc, ◌+◌, ◌≤◌, ◌≡◌, refl, sym, subst, u64_max, ◌∙◌, ap, inl, inr, true, List, [], ◌∷◌,
  ◌++◌, In, Option, none, some, map, arith, if◌then◌else◌, ◌==◌, nat_eq, Bool-cases,
}
use mathlib.Core.Option.{some-injective}
use kvflow_sim.Error.{ok, err, invalid_trace_line}
use kvflow_sim.Trace.Request.{LlmRequest}
use kvflow_sim.Trace.Jsonl.{
  Text, Fallible, bad, good, Files, Serde, trim, is_whitespace, read_jsonl, write_requests,
  write_jsonl,
}
use kvflow_sim.Trace.Jsonl.Laws.{lines_of, IsFileSystem, IsInRange, IsSerde}
use kvflow_sim.Trace.Jsonl.Reads.{read_jsonl_reports}
use kvflow_sim.Trace.Jsonl.RoundTrip.{read_jsonl-write_jsonl}

-- What the file has, and what the writer has accepted: all of it waits for the flush.
abbrev Disk : Type 0
Disk = Text × Text

abbrev one_file : Files Disk
one_file = record {
  lines = λ w path. good (map good (lines_of w.0));
  create = λ w path. (([], []), good tt);
  write_all = λ w path text. ((w.0, w.1 ++ text), good tt);
  flush = λ w path. ((w.1, w.1), good tt);
}

one_file-IsFileSystem : IsFileSystem one_file
one_file-IsFileSystem = record {
  accepted = λ w path. some w.1;
  contents = λ w path. some w.0;
  created = λ w path h. refl;
  written = λ w path before text has h. ap some (ap (λ t. t ++ text) (some-injective _ _ has));
  flushed = λ w path text has h. has;
  read = λ w path text has. ap (λ t. good (map good (lines_of t))) (some-injective _ _ has);
}

abbrev marks : ℕ → Text → Text
marks zero more = 44 ∷ more
marks (suc n) more = 97 ∷ marks n more

abbrev spell : List ℕ → Text
spell [] = []
spell (n ∷ l) = marks n (spell l)

abbrev scan : ℕ → Text → List ℕ
scan n [] = []
scan n (c ∷ t) = if c == 97 then scan (n + 1) t else (if c == 44 then n ∷ scan 0 t else [])

abbrev code : Option ℕ → ℕ
code none = 0
code (some n) = suc n

abbrev decode : ℕ → Option ℕ
decode zero = none
decode (suc n) = some n

abbrev numbers : LlmRequest → List ℕ
numbers r =
    r.request_id
    ∷ r.session_id
    ∷ r.turn_id
    ∷ r.arrival_ns
    ∷ r.prompt_tokens
    ∷ r.new_prompt_tokens
    ∷ r.output_tokens
    ∷ code r.slo_ttft_ns
    ∷ code r.slo_tbt_ns
    ∷ []

abbrev rebuilt : List ℕ → Fallible LlmRequest
rebuilt (a ∷ b ∷ c ∷ d ∷ e ∷ f ∷ g ∷ h ∷ i ∷ []) = good (record {
  request_id = a;
  session_id = b;
  turn_id = c;
  arrival_ns = d;
  prompt_tokens = e;
  new_prompt_tokens = f;
  output_tokens = g;
  model_id = "m";
  slo_ttft_ns = decode h;
  slo_tbt_ns = decode i;
})
rebuilt _ = bad "malformed"

abbrev unary : Serde
unary = record {
  from_str = λ t. elim t [ [] ↦ bad "empty" | c ∷ rest ↦ rebuilt (scan 0 rest) ];
  to_text = λ r.
      if str_eq r.model_id "m"
      then good (123 ∷ spell (numbers r) ++ 125 ∷ [])
      else bad "unknown model";
}

scan-marks :
    (k n : ℕ) (more last : Text) → scan k (marks n more ++ last) ≡ (k + n) ∷ scan 0 (more ++ last)
scan-marks k zero more last = ap (λ m. m ∷ scan 0 (more ++ last)) (omega arith)
scan-marks k (suc n) more last =
    scan-marks (k + 1) n more last ∙ ap (λ m. m ∷ scan 0 (more ++ last)) (omega arith)

scan-spell : (l : List ℕ) → scan 0 (spell l ++ 125 ∷ []) ≡ l
scan-spell [] = refl
scan-spell (n ∷ l) =
    scan-marks 0 n (spell l) (125 ∷ [])
    ∙ ap (λ m. m ∷ scan 0 (spell l ++ 125 ∷ [])) (omega arith)
    ∙ ap (λ m. n ∷ m) (scan-spell l)

marks-dark :
    (n : ℕ) (more : Text) → ((c : ℕ) → In c more → 32 ≤ c) → (c : ℕ) → In c (marks n more) → 32 ≤ c
marks-dark zero more dark c (inl q) = omega (arith, q)
marks-dark zero more dark c (inr i) = dark c i
marks-dark (suc n) more dark c (inl q) = omega (arith, q)
marks-dark (suc n) more dark c (inr i) = marks-dark n more dark c i

spell-dark : (l : List ℕ) (c : ℕ) → In c (spell l) → 32 ≤ c
spell-dark [] c i = absurd i
spell-dark (n ∷ l) c i = marks-dark n (spell l) (spell-dark l) c i

decode-code : (o : Option ℕ) → decode (code o) ≡ o
decode-code none = refl
decode-code (some n) = refl

rebuilt-numbers : (r : LlmRequest) → str_eq r.model_id "m" ≡ true → rebuilt (numbers r) ≡ good r
rebuilt-numbers r same =
    ap
      (λ name. good (record r {
        model_id = name;
        slo_ttft_ns = decode (code r.slo_ttft_ns);
        slo_tbt_ns = decode (code r.slo_tbt_ns);
      }))
      (sym ((eq_iff r.model_id "m").0 same))
    ∙ ap (λ o. good (record r { slo_ttft_ns = o; slo_tbt_ns = decode (code r.slo_tbt_ns) }))
        (decode-code r.slo_ttft_ns)
    ∙ ap (λ o. good (record r { slo_tbt_ns = o })) (decode-code r.slo_tbt_ns)

abbrev text_in : Fallible Text → Text
text_in (bad _) = []
text_in (good t) = t

printed :
    (r : LlmRequest) (t : Text)
    → unary.to_text r ≡ good t
    → (str_eq r.model_id "m" ≡ true) × (t ≡ 123 ∷ spell (numbers r) ++ 125 ∷ [])
printed r t h = elim (Bool-cases (str_eq r.model_id "m")) [
  | inl known ↦ (known, sym (ap text_in h) ∙ rw known refl)
  | inr other ↦ absurd (differs (sym h ∙ rw other refl))
]
  where
    differs : good t ≡ bad "unknown model" → ⊥
    differs q = cc

unary-IsSerde : IsSerde unary
unary-IsSerde = record {
  shape = λ r t h. (spell (numbers r), (printed r t h).1, spell-dark (numbers r));
  from-to = λ r t fits h.
      let (known, same) = printed r t h in
      ap unary.from_str same ∙ ap rebuilt (scan-spell (numbers r)) ∙ rebuilt-numbers r known;
}

abbrev request : ℕ → LlmRequest
request id = record {
  request_id = id;
  session_id = 1;
  turn_id = 0;
  arrival_ns = 5;
  prompt_tokens = 3;
  new_prompt_tokens = 3;
  output_tokens = 2;
  model_id = "m";
  slo_ttft_ns = none;
  slo_tbt_ns = some 4;
}

in_range : (id : ℕ) → id ≤ u64_max → IsInRange (request id)
in_range id small = (
  small,
  omega arith,
  omega arith,
  omega arith,
  omega arith,
  omega arith,
  omega arith,
  λ n h. cc,
  λ n h. omega (arith, some-injective _ _ h),
)

abbrev two : List LlmRequest
two = request 1 ∷ request 2 ∷ []

read_jsonl-write_jsonl_example :
    read_jsonl unary one_file (write_jsonl unary one_file ([], []) [] two).0 [] ≡ ok two
unfolding write_jsonl write_requests
read_jsonl-write_jsonl_example =
    read_jsonl-write_jsonl unary one_file unary-IsSerde one_file-IsFileSystem ([], []) [] two fits
      refl
  where
    fits : (q : LlmRequest) → In q two → IsInRange q
    fits q (inl e) = subst IsInRange (sym e) (in_range 1 (omega arith))
    fits q (inr (inl e)) = subst IsInRange (sym e) (in_range 2 (omega arith))
    fits q (inr (inr x)) = absurd x

-- A blank line, a request, and a line of a number.
abbrev damaged : Text
damaged = 32 ∷ 13 ∷ 10 ∷ 123 ∷ spell (numbers (request 1)) ++ 125 ∷ 10 ∷ 49 ∷ 10 ∷ []

read_jsonl_reports_example :
    read_jsonl unary one_file (damaged, []) [] ≡ err (invalid_trace_line 3 "malformed")
unfolding trim is_whitespace lines_of
read_jsonl_reports_example =
    read_jsonl_reports unary one_file (damaged, []) []
      ((32 ∷ []) ∷ (123 ∷ spell (numbers (request 1)) ++ 125 ∷ []) ∷ []) (request 1 ∷ []) (49 ∷ [])
      "malformed" [] refl
      (inl (
        refl,
        inr (request 1, [], (123, spell (numbers (request 1)) ++ 125 ∷ [], refl, refl), refl, refl),
      ))
      (49, [], refl, refl)
