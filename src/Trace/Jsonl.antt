-- ===== src/Trace/Jsonl.antt =====
-- src/trace/jsonl.rs. A text is the list of its characters. The file system and the two functions of
-- serde_json are parameters.
pub mod Laws
pub mod Reads
pub mod RoundTrip
mod Tests
use Prim.Native.String.{String}
use kvflow_sim.Base.{
  ℕ, ◌+◌, Bool, true, false, ◌&&◌, ◌||◌, List, [], ◌∷◌, ◌++◌, if◌then◌else◌, leb, ◌==◌, nat_eq,
}
use kvflow_sim.Error.{Result, ok, err, io, json, invalid_trace_line, ◌>>=◌}
use kvflow_sim.Trace.Request.{LlmRequest}

abbrev pub Text : Type 0
Text = List ℕ

-- What foreign code returns; of its errors only the message is used.
pub data Fallible (A : Type 0) : Type 0 where
  bad : (message : String) → Fallible A
  good : A → Fallible A

-- `File::open` with `BufReader::lines`, `File::create` and the two writes of a `BufWriter`, on
-- a state of the file system.
pub record Files (W : Type 0) : Type 0 where
  pub lines : W → Text → Fallible (List (Fallible Text))
  pub create : W → Text → W × Fallible (Unit {0})
  pub write_all : W → Text → Text → W × Fallible (Unit {0})
  pub flush : W → Text → W × Fallible (Unit {0})

-- `serde_json::from_str` and what `serde_json::to_writer` writes.
pub record Serde : Type 0 where
  pub from_str : Text → Fallible LlmRequest
  pub to_text : LlmRequest → Fallible Text

-- `char::is_whitespace`: the White_Space property of Unicode.
unfoldable pub is_whitespace : ℕ → Bool
is_whitespace c =
    leb 9 c && leb c 13
    || c == 32
    || c == 133
    || c == 160
    || c == 5760
    || leb 8192 c && leb c 8202
    || c == 8232
    || c == 8233
    || c == 8239
    || c == 8287
    || c == 12288

abbrev pub trim_start : Text → Text
trim_start [] = []
trim_start (c ∷ t) = if is_whitespace c then trim_start t else c ∷ t

-- A character stays if it, or one behind it, is no white space.
abbrev pub keep_unless_blank : ℕ → Text → Text
keep_unless_blank c [] = if is_whitespace c then [] else c ∷ []
keep_unless_blank c (d ∷ t) = c ∷ d ∷ t

abbrev pub trim_end : Text → Text
trim_end [] = []
trim_end (c ∷ t) = keep_unless_blank c (trim_end t)

-- `str::trim`.
unfoldable pub trim : Text → Text
unfolding is_whitespace
trim t = trim_end (trim_start t)

-- `?` on an error of the file system.
abbrev pub io_try : {A : Type 0} → Fallible A → Result A
io_try (bad message) = err (io message)
io_try (good a) = ok a

module _ (serde : Serde) where
  -- `map_err` on the error of a line.
  abbrev pub parsed : ℕ → Fallible LlmRequest → Result LlmRequest
  parsed line_no (bad message) = err (invalid_trace_line line_no message)
  parsed line_no (good req) = ok req

  -- The line behind `trim`: a blank one is left out.
  abbrev pub read_trimmed :
      ℕ
      → Text
      → List LlmRequest
      → (List LlmRequest → Result (List LlmRequest))
      → Result (List LlmRequest)
  read_trimmed line_no [] requests next = next requests
  read_trimmed line_no (c ∷ t) requests next =
      parsed line_no (serde.from_str (c ∷ t)) >>= (λ req. next (requests ++ req ∷ []))

  -- The loop over the lines, with the number of the next line and what has been read.
  unfoldable pub read_lines : ℕ → List (Fallible Text) → List LlmRequest → Result (List LlmRequest)
  unfolding trim
  read_lines line_no [] requests = ok requests
  read_lines line_no (line ∷ rest) requests = do
    text ← io_try line
    read_trimmed line_no (trim text) requests (read_lines (line_no + 1) rest)

  module _ {W : Type 0} (files : Files W) where
    unfoldable pub read_jsonl : W → Text → Result (List LlmRequest)
    unfolding read_lines
    read_jsonl w path = io_try (files.lines w path) >>= (λ l. read_lines 1 l [])

    -- One step of the writing: `?` where it fails.
    abbrev pub then_io :
        W × Fallible (Unit {0}) → (W → W × Result (Unit {0})) → W × Result (Unit {0})
    then_io step next = elim step.1 [
      | bad message ↦ (step.0, err (io message))
      | good _ ↦ next step.0
    ]

    -- An error of the file system inside serde_json is one of serde_json.
    abbrev pub then_json :
        W × Fallible (Unit {0}) → (W → W × Result (Unit {0})) → W × Result (Unit {0})
    then_json step next = elim step.1 [
      | bad message ↦ (step.0, err (json message))
      | good _ ↦ next step.0
    ]

    -- `serde_json::to_writer`, which writes a line without its end.
    abbrev pub to_writer :
        W → Text → Fallible Text → (W → W × Result (Unit {0})) → W × Result (Unit {0})
    to_writer w path (bad message) next = (w, err (json message))
    to_writer w path (good text) next = then_json (files.write_all w path text) next

    unfoldable pub write_requests : W → Text → List LlmRequest → W × Result (Unit {0})
    write_requests w path [] = then_io (files.flush w path) (λ v. (v, ok tt))
    write_requests w path (req ∷ rest) =
        to_writer w path (serde.to_text req)
          (λ v. then_io (files.write_all v path (10 ∷ [])) (λ u. write_requests u path rest))

    unfoldable pub write_jsonl : W → Text → List LlmRequest → W × Result (Unit {0})
    unfolding write_requests
    write_jsonl w path requests =
        then_io (files.create w path) (λ v. write_requests v path requests)
