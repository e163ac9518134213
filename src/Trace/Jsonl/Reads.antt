-- ===== src/Trace/Jsonl/Reads.antt =====
-- `read_jsonl` of src/trace/jsonl.rs on lines.
use kvflow_sim.Base.{
  ℕ, suc, ◌+◌, ◌≡◌, sym, ◌∙◌, ap, ◌⊎◌, inl, inr, List, [], ◌∷◌, ◌++◌, map, arith, length,
}
use mathlib.Core.List.{append-nil, append_assoc}
use kvflow_sim.Error.{Result, ok, err, ◌>>=◌, invalid_trace_line}
use kvflow_sim.Trace.Request.{LlmRequest}
use kvflow_sim.Trace.Jsonl.{
  Text, Fallible, bad, good, Files, Serde, trim, io_try, parsed, read_trimmed, read_lines,
  read_jsonl,
}
use Prim.Native.String.{String}

module _ (serde : Serde) where
  -- The line is not blank, and is parsed to this.
  abbrev pub Parses : Text → Fallible LlmRequest → Type 0
  Parses line result =
      (c : ℕ) × (t : Text) × (trim line ≡ c ∷ t) × (serde.from_str (c ∷ t) ≡ result)

  -- Every line is blank, or holds the next request.
  abbrev pub Holds : List Text → List LlmRequest → Type 0
  Holds [] requests = requests ≡ []
  Holds (line ∷ lines) requests =
      ((trim line ≡ []) × Holds lines requests)
      ⊎ ((q : LlmRequest) × (rest : List LlmRequest) × Parses line (good q)
          × (requests ≡ q ∷ rest)
          × Holds lines rest)

  abbrev goes_on : ℕ → List Text → List (Fallible Text) → List LlmRequest → Result (List LlmRequest)
  goes_on line_no lines more = read_lines serde (line_no + 1) (map good lines ++ more)

  later :
      (line_no : ℕ) (lines : List Text) (more : List (Fallible Text)) (l : List LlmRequest)
      → read_lines serde (line_no + 1 + length lines) more l
        ≡ read_lines serde (line_no + suc (length lines)) more l
  later line_no lines more l = ap (λ n. read_lines serde n more l) (omega arith)

  -- Behind lines that hold requests, the loop goes on with the others.
  pub read_lines-after :
      (line_no : ℕ) (lines : List Text) (more : List (Fallible Text))
      (requests before : List LlmRequest)
      → Holds lines requests
      → read_lines serde line_no (map good lines ++ more) before
        ≡ read_lines serde (line_no + length lines) more (before ++ requests)
  unfolding read_lines
  read_lines-after line_no [] more requests before none_held =
      ap (λ n. read_lines serde n more before) (omega arith)
      ∙ ap (read_lines serde (line_no + 0) more)
          (sym (ap (λ l. before ++ l) none_held ∙ append-nil before))
  read_lines-after line_no (line ∷ lines) more requests before (inl (blank, held)) =
      ap (λ x. read_trimmed serde line_no x before (goes_on line_no lines more)) blank
      ∙ read_lines-after (line_no + 1) lines more requests before held
      ∙ later line_no lines more (before ++ requests)
  read_lines-after line_no (line ∷ lines) more requests before
        (inr (q, rest, (c, t, trimmed, held_one), both, held)) =
      ap (λ x. read_trimmed serde line_no x before (goes_on line_no lines more)) trimmed
      ∙ ap
          (λ x. parsed serde line_no x >>= (λ req. goes_on line_no lines more (before ++ req ∷ [])))
          held_one
      ∙ read_lines-after (line_no + 1) lines more rest (before ++ q ∷ []) held
      ∙ ap (read_lines serde (line_no + 1 + length lines) more)
          (append_assoc before (q ∷ []) rest ∙ ap (λ l. before ++ l) (sym both))
      ∙ later line_no lines more (before ++ requests)

  module _ {W : Type 0} (files : Files W) (w : W) (path : Text) where
    -- A file of lines that are blank or hold a request gives the requests in order.
    pub read_jsonl_all :
        (lines : List Text) (requests : List LlmRequest)
        → files.lines w path ≡ good (map good lines)
        → Holds lines requests
        → read_jsonl serde files w path ≡ ok requests
    unfolding read_jsonl read_lines
    read_jsonl_all lines requests opened held =
        ap (λ x. io_try x >>= (λ l. read_lines serde 1 l []))
          (opened ∙ ap good (sym (append-nil (map good lines))))
        ∙ read_lines-after 1 lines [] requests [] held

    -- Behind lines that are blank or hold a request, the first line that is neither ends the
    -- reading with an error that has its number, counted from one with the blank lines, and the
    -- message of the parser, whatever follows it.
    pub read_jsonl_reports :
        (before : List Text) (requests : List LlmRequest) (line : Text) (message : String)
        (after : List (Fallible Text))
        → files.lines w path ≡ good (map good before ++ good line ∷ after)
        → Holds before requests
        → Parses line (bad message)
        → read_jsonl serde files w path ≡ err (invalid_trace_line (length before + 1) message)
    unfolding read_jsonl read_lines
    read_jsonl_reports before requests line message after opened held (c, t, trimmed, failed) =
        ap (λ x. io_try x >>= (λ l. read_lines serde 1 l [])) opened
        ∙ read_lines-after 1 before (good line ∷ after) requests [] held
        ∙ ap
            (λ x.
              read_trimmed serde (1 + length before) x requests
                (read_lines serde (1 + length before + 1) after))
            trimmed
        ∙ ap
            (λ x.
              parsed serde (1 + length before) x
              >>= (λ req. read_lines serde (1 + length before + 1) after (requests ++ req ∷ [])))
            failed
        ∙ ap (λ n. err (invalid_trace_line n message)) (omega arith)
