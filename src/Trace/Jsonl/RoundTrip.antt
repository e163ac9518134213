-- ===== src/Trace/Jsonl/RoundTrip.antt =====
-- What `write_jsonl` of src/trace/jsonl.rs writes, `read_jsonl` reads.
use kvflow_sim.Base.{
  ℕ, ◌≤◌, ◌≡◌, refl, sym, subst, ◌∙◌, ap, ◌⊎◌, inl, inr, List, [], ◌∷◌, ◌++◌, In, some, map, arith,
  nat_eq, false,
}
use mathlib.Core.List.{append-nil, append_assoc}
use Prim.Native.String.{String}
use kvflow_sim.Error.{Result, ok}
use kvflow_sim.Trace.Request.{LlmRequest}
use kvflow_sim.Trace.Jsonl.{
  Text, Fallible, bad, good, Files, Serde, is_whitespace, trim, trim_end, keep_unless_blank,
  read_jsonl, then_io, then_json, to_writer, write_requests, write_jsonl,
}
use kvflow_sim.Trace.Jsonl.Laws.{lines_of, IsFileSystem, IsInRange, IsSerde}
use kvflow_sim.Trace.Jsonl.Reads.{Holds, read_jsonl_all}

Fallible-cases :
    {A : Type 0} (x : Fallible A)
    → ((message : String) × (x ≡ bad message)) ⊎ ((a : A) × (x ≡ good a))
Fallible-cases (bad message) = inl (message, refl)
Fallible-cases (good a) = inr (a, refl)

-- The lines, each with its end.
abbrev joined : List Text → Text
joined [] = []
joined (t ∷ l) = t ++ 10 ∷ joined l

-- The texts of the requests.
abbrev Printed : Serde → List LlmRequest → List Text → Type 0
Printed serde [] texts = texts ≡ []
Printed serde (q ∷ rest) texts =
    (t : Text) × (others : List Text) × (texts ≡ t ∷ others)
    × (serde.to_text q ≡ good t)
    × Printed serde rest others

In-append : (c : ℕ) (b more : Text) → In c (b ++ more) → In c b ⊎ In c more
In-append c [] more i = inr i
In-append c (d ∷ b) more (inl q) = inl (inl q)
In-append c (d ∷ b) more (inr i) = elim (In-append c b more i) [
  | inl j ↦ inl (inr j)
  | inr k ↦ inr k
]

abbrev Plain : Text → Type 0
Plain t = (c : ℕ) → In c t → 32 ≤ c

lines_of-end : (t more : Text) → Plain t → lines_of (t ++ 10 ∷ more) ≡ t ∷ lines_of more
unfolding lines_of
lines_of-end [] more plain = refl
lines_of-end (c ∷ t) more plain =
    ground (arith, plain c (inl refl), lines_of-end t more (λ d i. plain d (inr i)))

lines_of-joined : (l : List Text) → ((t : Text) → In t l → Plain t) → lines_of (joined l) ≡ l
unfolding lines_of
lines_of-joined [] plain = refl
lines_of-joined (t ∷ l) plain =
    lines_of-end t (joined l) (plain t (inl refl))
    ∙ ap (λ m. t ∷ m) (lines_of-joined l (λ u i. plain u (inr i)))

kept : (d : ℕ) (t : Text) (c : ℕ) → keep_unless_blank d (t ++ c ∷ []) ≡ d ∷ t ++ c ∷ []
kept d [] c = refl
kept d (e ∷ t) c = refl

trim_end-last : (t : Text) (c : ℕ) → is_whitespace c ≡ false → trim_end (t ++ c ∷ []) ≡ t ++ c ∷ []
trim_end-last [] c dark = rw dark refl
trim_end-last (d ∷ t) c dark = ap (keep_unless_blank d) (trim_end-last t c dark) ∙ kept d t c

-- A text in braces stays.
trim-braces : (body : Text) → trim (123 ∷ body ++ 125 ∷ []) ≡ 123 ∷ body ++ 125 ∷ []
unfolding trim is_whitespace
trim-braces body = ap (keep_unless_blank 123) (trim_end-last body 125 refl) ∙ kept 123 body 125

module _ (serde : Serde) {W : Type 0} (files : Files W) where
  then_io-ok :
      (step : W × Fallible (Unit {0})) (next : W → W × Result (Unit {0}))
      → (then_io serde files step next).1 ≡ ok tt
      → (step.1 ≡ good tt) × (then_io serde files step next ≡ next step.0)
  then_io-ok (w, bad message) next h = cc
  then_io-ok (w, good _) next h = (refl, refl)

  then_json-ok :
      (step : W × Fallible (Unit {0})) (next : W → W × Result (Unit {0}))
      → (then_json serde files step next).1 ≡ ok tt
      → (step.1 ≡ good tt) × (then_json serde files step next ≡ next step.0)
  then_json-ok (w, bad message) next h = cc
  then_json-ok (w, good _) next h = (refl, refl)

  to_writer-ok :
      (w : W) (path : Text) (x : Fallible Text) (next : W → W × Result (Unit {0}))
      → (to_writer serde files w path x next).1 ≡ ok tt
      → (t : Text) × (x ≡ good t)
        × ((files.write_all w path t).1 ≡ good tt)
        × (to_writer serde files w path x next ≡ next (files.write_all w path t).0)
  to_writer-ok w path (bad message) next h = cc
  to_writer-ok w path (good t) next h =
      let (fine, same) = then_json-ok (files.write_all w path t) next h in (t, refl, fine, same)

  module _ (fs : IsFileSystem files) (path : Text) where
    writes :
        (l : List LlmRequest) (w : W) (before : Text)
        → fs.accepted w path ≡ some before
        → (write_requests serde files w path l).1 ≡ ok tt
        → (texts : List Text) × Printed serde l texts
          × (fs.contents (write_requests serde files w path l).0 path
              ≡ some (before ++ joined texts))
    unfolding write_requests
    writes [] w before has h =
        let (fine, same) = then_io-ok (files.flush w path) (λ v. (v, ok tt)) h in
        (
          [],
          refl,
          ap (λ (x : W × Result (Unit {0})). fs.contents x.0 path) same
              ∙ fs.flushed w path before has fine
              ∙ ap some (sym (append-nil before)),
        )
    writes (q ∷ rest) w before has h =
        let newline : W → W × Result (Unit {0}) = λ v.
          then_io serde files (files.write_all v path (10 ∷ []))
            (λ u. write_requests serde files u path rest) in
        let (t, printed, fine, same) = to_writer-ok w path (serde.to_text q) newline h in
        let v = (files.write_all w path t).0 in
        let u = (files.write_all v path (10 ∷ [])).0 in
        let (ended, same2) =
          then_io-ok (files.write_all v path (10 ∷ []))
            (λ x. write_requests serde files x path rest)
            (sym (ap (λ (x : W × Result (Unit {0})). x.1) same) ∙ h) in
        let has2 = fs.written v path _ (10 ∷ []) (fs.written w path before t has fine) ended in
        let (texts, others, got) =
          writes rest u _ has2 (sym (ap (λ (x : W × Result (Unit {0})). x.1) (same ∙ same2)) ∙ h) in
        (
          t ∷ texts,
          (t, texts, refl, printed, others),
          ap (λ (x : W × Result (Unit {0})). fs.contents x.0 path) (same ∙ same2)
              ∙ got
              ∙ ap some (
                  append_assoc (before ++ t) (10 ∷ []) (joined texts)
                  ∙ append_assoc before t (10 ∷ joined texts)),
        )

  module _ (laws : IsSerde serde) where
    Printed-Plain :
        (l : List LlmRequest) (texts : List Text)
        → Printed serde l texts
        → (t : Text) → In t texts
        → Plain t
    Printed-Plain [] texts none_there t i = absurd (subst (In t) none_there i)
    Printed-Plain (q ∷ rest) texts (u, others, same, printed, more) t i =
        elim (subst (In t) same i) [
          | inl found ↦ λ c j. plain (laws.shape q u printed) c (subst (In c) found j)
          | inr later ↦ Printed-Plain rest others more t later
        ]
      where
        plain : (b : Text) × (u ≡ 123 ∷ b ++ 125 ∷ []) × ((c : ℕ) → In c b → 32 ≤ c) → Plain u
        plain (b, braces, dark) c j = elim (subst (In c) braces j) [
          | inl first ↦ omega (arith, first)
          | inr k ↦ elim (In-append c b _ k) [
            | inl inside ↦ dark c inside
            | inr last ↦ elim last [ inl q ↦ omega (arith, q) | inr x ↦ absurd x ]
          ]
        ]

    Printed-Holds :
        (l : List LlmRequest) (texts : List Text)
        → ((q : LlmRequest) → In q l → IsInRange q)
        → Printed serde l texts
        → Holds serde texts l
    Printed-Holds [] texts fits printed = subst (λ l. Holds serde l []) (sym printed) refl
    Printed-Holds (q ∷ rest) texts fits (u, others, same, printed, more) =
        let (b, braces, _) = laws.shape q u printed in
        subst (λ l. Holds serde l (q ∷ rest)) (sym same)
          (inr (
            q,
            rest,
            (
              123,
              b ++ 125 ∷ [],
              ap trim braces ∙ trim-braces b,
              ap serde.from_str (sym braces) ∙ laws.from-to q u (fits q (inl refl)) printed,
            ),
            refl,
            Printed-Holds rest others (λ x i. fits x (inr i)) more,
          ))

    -- Where a flush brings all that was written to the file and its lines are read back, and
    -- serde_json escapes control characters and reads what it writes, the requests of machine-width
    -- numbers that `write_jsonl` has written without an error are what `read_jsonl` gives.
    pub read_jsonl-write_jsonl :
        (fs : IsFileSystem files) (w : W) (path : Text) (requests : List LlmRequest)
        → ((q : LlmRequest) → In q requests → IsInRange q)
        → (write_jsonl serde files w path requests).1 ≡ ok tt
        → read_jsonl serde files (write_jsonl serde files w path requests).0 path ≡ ok requests
    unfolding write_jsonl
    read_jsonl-write_jsonl fs w path requests fits h =
        let (made, same) =
          then_io-ok (files.create w path) (λ v. write_requests serde files v path requests) h in
        let (texts, printed, has) =
          writes fs path requests (files.create w path).0 [] (fs.created w path made)
            (sym (ap (λ (x : W × Result (Unit {0})). x.1) same) ∙ h) in
        let after = (write_jsonl serde files w path requests).0 in
        read_jsonl_all serde files after path texts requests
          (fs.read after path (joined texts)
              (ap (λ (x : W × Result (Unit {0})). fs.contents x.0 path) same ∙ has)
            ∙ ap (λ l. good (map good l))
                (lines_of-joined texts (Printed-Plain requests texts printed)))
          (Printed-Holds requests texts fits printed)
