-- ===== src/Analysis/Chunking/Cut.antt =====
-- What the limit leaves of a document.
use synthetos.Prelude.{ℕ, ◌+◌, ◌≤◌, ◌<◌, [], ◌++◌, length, All}
use synthetos.Analysis.Chunking.{
  figure, table, equation, Section, IngestedDocument, section_chunks, add_others, chunk_document,
}
use synthetos.Analysis.Chunking.Growth.{
  IsGrown, pieces, sections_pieces, other_pieces, grow_twice, add_others-full, others-IsGrown,
  sections-IsGrown,
}
use synthetos.Analysis.Chunking.Bound.{others-length, sections-length}

-- With a limit and a number of lines of one at least, the chunks of a document whose sections have no
-- more lines than that are numbered from 0 on, are the first pieces of the document in their order, all
-- of them unless the limit is reached, and are fewer than the limit and the number of lines together.
pub chunk_document-IsCut :
    (limit most : ℕ) (doc : IngestedDocument)
    → 1 ≤ limit
    → 1 ≤ most
    → All (λ (s : Section). length s.lines ≤ most) doc.normalized_sections
    → IsGrown limit [] (chunk_document limit doc) (pieces doc)
      × (length (chunk_document limit doc) < limit + most)
unfolding chunk_document
chunk_document-IsCut limit most doc some_limit one hs =
    let s = doc.analysis_session_id in
    let a = section_chunks s limit doc.normalized_sections [] in
    let b = add_others s limit figure doc.normalized_figures a in
    let c = add_others s limit table doc.normalized_tables b in
    let d = add_others s limit equation doc.normalized_equations c in
    let ps = sections_pieces doc.normalized_sections in
    let figures = other_pieces figure doc.normalized_figures in
    let tables = other_pieces table doc.normalized_tables in
    let equations = other_pieces equation doc.normalized_equations in
    (
      grow_twice limit [] c d ((ps ++ figures) ++ tables) equations
          (grow_twice limit [] b c (ps ++ figures) tables
            (grow_twice limit [] a b ps figures
              (sections-IsGrown s limit doc.normalized_sections [])
              (others-IsGrown s limit figure doc.normalized_figures a)
              (add_others-full s limit figure doc.normalized_figures a))
            (others-IsGrown s limit table doc.normalized_tables b)
            (add_others-full s limit table doc.normalized_tables b))
          (others-IsGrown s limit equation doc.normalized_equations c)
          (add_others-full s limit equation doc.normalized_equations c),
      others-length s limit most equation doc.normalized_equations c one (
          others-length s limit most table doc.normalized_tables b one (
            others-length s limit most figure doc.normalized_figures a one
              (sections-length s limit most doc.normalized_sections [] one hs some_limit))),
    )
