-- ===== src/Analysis/Tests.antt =====
-- The theorems on the analysis at concrete inputs.
use Prim.Native.String.{String}
use synthetos.Prelude.{◌+◌, ◌≡◌, refl, ◌<◌, List, [], ◌∷◌, length, arith}
use synthetos.Analysis.Chunking.{
  Section, IngestedDocument, chunk_document, section_chunks, add_others,
}
use synthetos.Analysis.Chunking.Growth.{IsGrown, pieces}
use synthetos.Analysis.Chunking.Cut.{chunk_document-IsCut}

abbrev section_with : List String → Section
section_with ls = record { heading = "Methods"; content = "text"; lines = ls }

abbrev document : IngestedDocument
document = record {
  analysis_session_id = 4;
  normalized_sections = section_with ("a" ∷ []) ∷ section_with ("b" ∷ "c" ∷ "d" ∷ []) ∷ [];
  normalized_figures = "Figure 1: x" ∷ [];
  normalized_tables = [];
  normalized_equations = [];
}

-- A limit of two gives four chunks.
beyond_limit : length (chunk_document 2 document) ≡ 4
unfolding chunk_document section_chunks add_others
beyond_limit = refl

chunk_document-IsCut_example :
    IsGrown 2 [] (chunk_document 2 document) (pieces document)
    × (length (chunk_document 2 document) < 2 + 3)
chunk_document-IsCut_example =
    chunk_document-IsCut 2 3 document (omega arith) (omega arith) (omega arith, (omega arith, tt))
