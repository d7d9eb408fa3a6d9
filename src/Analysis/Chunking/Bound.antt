-- ===== src/Analysis/Chunking/Bound.antt =====
-- The number of chunks against the limit.
use Prim.Native.String.{String}
use synthetos.Prelude.{
  ℕ, suc, ◌+◌, leb, ◌≡◌, refl, ap, ◌≤◌, ◌<◌, inl, inr, none, List, [], ◌∷◌, ◌++◌, if◌then◌else◌,
  length, length-append, All, Bool-cases, arith,
}
use synthetos.Analysis.Chunking.{
  ChunkType, PaperChunk, Section, make_chunk, paragraphs, of_section, after_section, section_chunks,
  add_others,
}

module _ (session limit : ℕ) where
  -- The length stays below the limit and the most lines of a section together.
  pub others-length :
      (most : ℕ) (type : ChunkType) (cs : List String) (chunks : List PaperChunk)
      → 1 ≤ most
      → length chunks < limit + most
      → length (add_others session limit type cs chunks) < limit + most
  unfolding add_others
  others-length most type [] chunks one h = h
  others-length most type (c ∷ cs) chunks one h = elim (Bool-cases (leb limit (length chunks))) [
    | inl full ↦ rw full h
    | inr room ↦ rw room (
        let next = chunks ++ make_chunk session type none c (length chunks) ∷ [] in
        let grown = length-append chunks (make_chunk session type none c (length chunks) ∷ []) in
        others-length most type cs next one (ground (arith, room, one, grown)))
  ]

  length-of_section :
      (n : ℕ) (heading content : String) (ls : List String)
      → length (of_section session n heading content ls) ≡ length ls
  length-of_section n heading content [] = refl
  length-of_section n heading content (l ∷ []) = refl
  length-of_section n heading content (l ∷ m ∷ ls) = length-paragraphs n (l ∷ m ∷ ls)
    where
      length-paragraphs :
          (k : ℕ) (xs : List String) → length (paragraphs session heading k xs) ≡ length xs
      length-paragraphs k [] = refl
      length-paragraphs k (x ∷ xs) = ap suc (length-paragraphs (suc k) xs)

  after_section-length :
      (n : ℕ) (ls : List String) (next blank : List PaperChunk)
      → length next < n
      → length blank < n
      → length (after_section session ls next blank) < n
  after_section-length n [] next blank h g = g
  after_section-length n (l ∷ ls) next blank h g = h

  pub sections-length :
      (most : ℕ) (ss : List Section) (chunks : List PaperChunk)
      → 1 ≤ most
      → All (λ (s : Section). length s.lines ≤ most) ss
      → length chunks < limit
      → length (section_chunks session limit ss chunks) < limit + most
  unfolding section_chunks
  sections-length most [] chunks one hs h = omega (arith, one, h)
  sections-length most (s ∷ ss) chunks one hs h =
      let new = of_section session (length chunks) s.heading s.content s.lines in
      let more = chunks ++ new in
      let grown = length-append chunks new in
      let lines = length-of_section (length chunks) s.heading s.content s.lines in
      after_section-length (limit + most) s.lines
        (if leb limit (length more) then more else section_chunks session limit ss more)
        (section_chunks session limit ss chunks)
        (elim (Bool-cases (leb limit (length more))) [
          | inl full ↦ rw full (omega (arith, grown, lines, hs.0, h))
          | inr room ↦ rw room (sections-length most ss more one hs.1 (ground (arith, room)))
        ])
        (sections-length most ss chunks one hs.1 h)
