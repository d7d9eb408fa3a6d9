-- ===== src/Analysis/Chunking/Growth.antt =====
-- The pieces of a document, and chunks that grow by them in their order.
use Prim.Native.String.{String}
use synthetos.Prelude.{
  ℕ, suc, ◌+◌, leb, ◌≡◌, refl, sym, ap, ◌∙◌, ◌≤◌, ◌⊎◌, inl, inr, Option, none, some, List, [], ◌∷◌,
  ◌++◌, map, if◌then◌else◌, length, length-append, Bool-cases, arith,
}
use synthetos.Analysis.Chunking.{
  ChunkType, section, paragraph, figure, table, equation, PaperChunk, Section, IngestedDocument,
  make_chunk, paragraphs, of_section, after_section, section_chunks, add_others,
}
use mathlib.Core.List.{append-nil, append_assoc}

abbrev Piece : Type 0
Piece = ChunkType × Option String × String

abbrev piece : PaperChunk → Piece
piece c = (c.chunk_type, c.section_path, c.content)

-- The pieces of a document without a limit, in the order of the code.
abbrev section_pieces : String → String → List String → List Piece
section_pieces heading content [] = []
section_pieces heading content (l ∷ []) = (section, some heading, content) ∷ []
section_pieces heading content (l ∷ m ∷ ls) = map (λ x. (paragraph, some heading, x)) (l ∷ m ∷ ls)

abbrev pub sections_pieces : List Section → List Piece
sections_pieces [] = []
sections_pieces (s ∷ ss) = section_pieces s.heading s.content s.lines ++ sections_pieces ss

abbrev pub other_pieces : ChunkType → List String → List Piece
other_pieces type cs = map (λ c. (type, none, c)) cs

abbrev pub pieces : IngestedDocument → List Piece
pieces doc =
    ((sections_pieces doc.normalized_sections ++ other_pieces figure doc.normalized_figures)
      ++ other_pieces table doc.normalized_tables)
    ++ other_pieces equation doc.normalized_equations

-- The ordinals are consecutive from a number on.
abbrev IsNumbered : ℕ → List PaperChunk → Type 0
IsNumbered k [] = Unit
IsNumbered k (c ∷ cs) = (c.ordinal ≡ k) × IsNumbered (suc k) cs

-- The chunks grow by numbered ones, whose pieces are the first of a list, and all of it if the limit
-- is not reached.
abbrev pub IsGrown : ℕ → List PaperChunk → List PaperChunk → List Piece → Type 0
IsGrown limit chunks out ps =
    (new : List PaperChunk) × (rest : List Piece) × (out ≡ chunks ++ new)
    × (ps ≡ map piece new ++ rest)
    × ((rest ≡ []) ⊎ (limit ≤ length out))
    × IsNumbered (length chunks) new

map-append : (xs ys : List PaperChunk) → map piece (xs ++ ys) ≡ map piece xs ++ map piece ys
map-append [] ys = refl
map-append (x ∷ xs) ys = ap (λ us. piece x ∷ us) (map-append xs ys)

IsNumbered-append :
    (k n : ℕ) (xs ys : List PaperChunk)
    → k + length xs ≡ n
    → IsNumbered k xs
    → IsNumbered n ys
    → IsNumbered k (xs ++ ys)
IsNumbered-append k n [] ys e h g = let same : k ≡ n = omega (arith, e) in rw same g
IsNumbered-append k n (x ∷ xs) ys e h g =
    (h.0, IsNumbered-append (suc k) n xs ys (omega (arith, e)) h.1 g)

-- One growth after the other, when a full list is left alone.
pub grow_twice :
    (limit : ℕ) (a b c : List PaperChunk) (ps qs : List Piece)
    → IsGrown limit a b ps
    → IsGrown limit b c qs
    → (limit ≤ length b → c ≡ b)
    → IsGrown limit a c (ps ++ qs)
grow_twice limit a b c ps qs (n, r, out, eq, inl all, num) (n', r', out', eq', end', num') full = (
  n ++ n',
  r',
  (out' ∙ ap (λ xs. xs ++ n') out) ∙ append_assoc a n n',
  (ap (λ xs. xs ++ qs) (eq ∙ (ap (λ xs. map piece n ++ xs) all ∙ append-nil (map piece n)))
        ∙ ap (λ xs. map piece n ++ xs) eq')
      ∙ (sym (append_assoc (map piece n) (map piece n') r')
          ∙ ap (λ xs. xs ++ r') (sym (map-append n n'))),
  end',
  IsNumbered-append (length a) (length b) n n' (omega (arith, length-append a n, ap length out)) num
      num',
)
grow_twice limit a b c ps qs (n, r, out, eq, inr cut, num) more full = (
  n,
  r ++ qs,
  full cut ∙ out,
  ap (λ xs. xs ++ qs) eq ∙ append_assoc (map piece n) r qs,
  inr (omega (arith, cut, ap length (full cut))),
  num,
)

module _ (session limit : ℕ) where
  piece-paragraphs :
      (heading : String) (n : ℕ) (ls : List String)
      → map piece (paragraphs session heading n ls) ≡ map (λ x. (paragraph, some heading, x)) ls
  piece-paragraphs heading n [] = refl
  piece-paragraphs heading n (l ∷ ls) =
      ap (λ xs. (paragraph, some heading, l) ∷ xs) (piece-paragraphs heading (suc n) ls)

  IsNumbered-paragraphs :
      (heading : String) (n : ℕ) (ls : List String) → IsNumbered n (paragraphs session heading n ls)
  IsNumbered-paragraphs heading n [] = tt
  IsNumbered-paragraphs heading n (l ∷ ls) = (refl, IsNumbered-paragraphs heading (suc n) ls)

  -- All the pieces of one section.
  section-IsGrown :
      (heading content : String) (ls : List String) (chunks : List PaperChunk)
      → IsGrown limit chunks
          (chunks ++ of_section session (length chunks) heading content ls)
          (section_pieces heading content ls)
  section-IsGrown heading content [] chunks = ([], [], refl, refl, inl refl, tt)
  section-IsGrown heading content (l ∷ []) chunks = (
    make_chunk session section (some heading) content (length chunks) ∷ [],
    [],
    refl,
    refl,
    inl refl,
    (refl, tt),
  )
  section-IsGrown heading content (l ∷ m ∷ ls) chunks = (
    paragraphs session heading (length chunks) (l ∷ m ∷ ls),
    [],
    refl,
    sym (
        append-nil (map piece (paragraphs session heading (length chunks) (l ∷ m ∷ ls)))
        ∙ piece-paragraphs heading (length chunks) (l ∷ m ∷ ls)),
    inl refl,
    IsNumbered-paragraphs heading (length chunks) (l ∷ m ∷ ls),
  )

  pub add_others-full :
      (type : ChunkType) (cs : List String) (chunks : List PaperChunk)
      → limit ≤ length chunks
      → add_others session limit type cs chunks ≡ chunks
  unfolding add_others
  add_others-full type [] chunks h = refl
  add_others-full type (c ∷ cs) chunks h = ground (arith, h)

  pub others-IsGrown :
      (type : ChunkType) (cs : List String) (chunks : List PaperChunk)
      → IsGrown limit chunks (add_others session limit type cs chunks) (other_pieces type cs)
  unfolding add_others
  others-IsGrown type [] chunks = ([], [], sym (append-nil chunks), refl, inl refl, tt)
  others-IsGrown type (c ∷ cs) chunks = elim (Bool-cases (leb limit (length chunks))) [
    | inl full ↦ rw full (
      [],
      other_pieces type (c ∷ cs),
      sym (append-nil chunks),
      refl,
      inr (ground (arith, full)),
      tt,
    )
    | inr room ↦ rw room (
        let one = make_chunk session type none c (length chunks) in
        grow_twice limit chunks (chunks ++ one ∷ [])
          (add_others session limit type cs (chunks ++ one ∷ [])) ((type, none, c) ∷ [])
          (other_pieces type cs) (one ∷ [], [], refl, refl, inl refl, (refl, tt))
          (others-IsGrown type cs (chunks ++ one ∷ []))
          (λ h. add_others-full type cs (chunks ++ one ∷ []) h))
  ]

  after_section-IsGrown :
      (ls : List String) (heading content : String) (chunks next blank : List PaperChunk)
      (ps : List Piece)
      → IsGrown limit chunks next (section_pieces heading content ls ++ ps)
      → IsGrown limit chunks blank ps
      → IsGrown limit chunks
          (after_section session ls next blank)
          (section_pieces heading content ls ++ ps)
  after_section-IsGrown [] heading content chunks next blank ps h g = g
  after_section-IsGrown (l ∷ ls) heading content chunks next blank ps h g = h

  pub sections-IsGrown :
      (ss : List Section) (chunks : List PaperChunk)
      → IsGrown limit chunks (section_chunks session limit ss chunks) (sections_pieces ss)
  unfolding section_chunks
  sections-IsGrown [] chunks = ([], [], sym (append-nil chunks), refl, inl refl, tt)
  sections-IsGrown (s ∷ ss) chunks =
      let more = chunks ++ of_section session (length chunks) s.heading s.content s.lines in
      let rest = section_chunks session limit ss more in
      let this = section-IsGrown s.heading s.content s.lines chunks in
      after_section-IsGrown s.lines s.heading s.content chunks
        (if leb limit (length more) then more else rest) (section_chunks session limit ss chunks)
        (sections_pieces ss)
        (elim (Bool-cases (leb limit (length more))) [
          | inl full ↦ rw full (
              grow_twice limit chunks more more (section_pieces s.heading s.content s.lines)
                (sections_pieces ss) this
                (
                  [],
                  sections_pieces ss,
                  sym (append-nil more),
                  refl,
                  inr (ground (arith, full)),
                  tt,
                )
                (λ h. refl))
          | inr room ↦ rw room (
              grow_twice limit chunks more rest (section_pieces s.heading s.content s.lines)
                (sections_pieces ss) this (sections-IsGrown ss more)
                (λ h. absurd (ground (arith, room, h))))
        ])
        (sections-IsGrown ss chunks)
