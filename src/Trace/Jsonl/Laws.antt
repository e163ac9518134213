-- ===== src/Trace/Jsonl/Laws.antt =====
-- What src/trace/jsonl.rs relies on: the file system, and serde_json.
use kvflow_sim.Base.{
  ℕ, ◌≤◌, ◌≡◌, List, [], ◌∷◌, ◌++◌, In, Option, some, map, Bool, false, ◌&&◌, if◌then◌else◌, ◌==◌,
  nat_eq, u64_max, u32_max,
}
use kvflow_sim.Trace.Request.{LlmRequest}
use kvflow_sim.Trace.Jsonl.{Text, good, Files, Serde}

abbrev pub ends_line : Text → Bool
ends_line [] = false
ends_line (c ∷ t) = c == 10

abbrev pub in_front : ℕ → List Text → List Text
in_front c [] = (c ∷ []) ∷ []
in_front c (line ∷ rest) = (c ∷ line) ∷ rest

-- `BufRead::lines`: a line ends with a line feed, or with a carriage return and a line feed.
unfoldable pub lines_of : Text → List Text
lines_of [] = []
lines_of (c ∷ t) =
    let rest = lines_of t in
    if c == 10 then [] ∷ rest else (if c == 13 && ends_line t then rest else in_front c rest)

-- A `BufWriter` accepts what is written and may keep it to itself; behind a flush that succeeds, the
-- file has all that was accepted. What a file has is read back by lines.
pub record IsFileSystem {W : Type 0} (files : Files W) : Type 0 where
  pub accepted : W → Text → Option Text
  pub contents : W → Text → Option Text
  pub created :
      (w : W) (path : Text)
      → (files.create w path).1 ≡ good tt
      → accepted (files.create w path).0 path ≡ some []
  pub written :
      (w : W) (path before text : Text)
      → accepted w path ≡ some before
      → (files.write_all w path text).1 ≡ good tt
      → accepted (files.write_all w path text).0 path ≡ some (before ++ text)
  pub flushed :
      (w : W) (path text : Text)
      → accepted w path ≡ some text
      → (files.flush w path).1 ≡ good tt
      → contents (files.flush w path).0 path ≡ some text
  pub read :
      (w : W) (path text : Text)
      → contents w path ≡ some text
      → files.lines w path ≡ good (map good (lines_of text))

-- The numbers of a request have the widths of their types.
abbrev pub IsInRange : LlmRequest → Type 0
IsInRange r =
    (r.request_id ≤ u64_max)
    × (r.session_id ≤ u64_max)
    × (r.turn_id ≤ u32_max)
    × (r.arrival_ns ≤ u64_max)
    × (r.prompt_tokens ≤ u32_max)
    × (r.new_prompt_tokens ≤ u32_max)
    × (r.output_tokens ≤ u32_max)
    × ((n : ℕ) → r.slo_ttft_ns ≡ some n → n ≤ u64_max)
    × ((n : ℕ) → r.slo_tbt_ns ≡ some n → n ≤ u64_max)

-- A struct is written between braces with every control character escaped, and read back.
pub record IsSerde (serde : Serde) : Type 0 where
  pub shape :
      (r : LlmRequest) (t : Text)
      → serde.to_text r ≡ good t
      → (body : Text) × (t ≡ 123 ∷ body ++ 125 ∷ []) × ((c : ℕ) → In c body → 32 ≤ c)
  pub from-to :
      (r : LlmRequest) (t : Text)
      → IsInRange r
      → serde.to_text r ≡ good t
      → serde.from_str t ≡ good r
