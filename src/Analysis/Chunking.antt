-- ===== src/Analysis/Chunking.antt =====
-- The chunks of a document: libs/analysis/chunking.py. The lines of a section that are not blank are
-- given, stripped; a section without one is blank. Contents of figures, tables and equations are given
-- as their texts, and identifiers, digests and metadata are left out.
pub mod Growth
pub mod Bound
pub mod Cut
use Prim.Native.String.{String}
use synthetos.Prelude.{ℕ, suc, leb, Option, none, some, List, [], ◌∷◌, ◌++◌, if◌then◌else◌, length}

pub data ChunkType : Type 0 where
  section paragraph figure table equation : ChunkType

pub record PaperChunk : Type 0 where
  pub analysis_session_id : ℕ
  pub chunk_type : ChunkType
  pub section_path : Option String
  pub ordinal : ℕ
  pub content : String

pub record Section : Type 0 where
  pub heading : String
  pub content : String
  pub lines : List String

pub record IngestedDocument : Type 0 where
  pub analysis_session_id : ℕ
  pub normalized_sections : List Section
  pub normalized_figures : List String
  pub normalized_tables : List String
  pub normalized_equations : List String

module _ (session : ℕ) where
  abbrev pub make_chunk : ChunkType → Option String → String → ℕ → PaperChunk
  make_chunk type path content ordinal = record {
    analysis_session_id = session;
    chunk_type = type;
    section_path = path;
    ordinal = ordinal;
    content = content;
  }

  abbrev pub paragraphs : String → ℕ → List String → List PaperChunk
  paragraphs heading n [] = []
  paragraphs heading n (l ∷ ls) =
      make_chunk paragraph (some heading) l n ∷ paragraphs heading (suc n) ls

  -- A section from a number on: none for a blank one, itself with one line, else its paragraphs.
  abbrev pub of_section : ℕ → String → String → List String → List PaperChunk
  of_section n heading content [] = []
  of_section n heading content (l ∷ []) = make_chunk section (some heading) content n ∷ []
  of_section n heading content (l ∷ m ∷ ls) = paragraphs heading n (l ∷ m ∷ ls)

  abbrev pub after_section : List String → List PaperChunk → List PaperChunk → List PaperChunk
  after_section [] next blank = blank
  after_section (l ∷ ls) next blank = next

  -- The limit is tested after each section that is not blank.
  unfoldable pub section_chunks : ℕ → List Section → List PaperChunk → List PaperChunk
  section_chunks limit [] chunks = chunks
  section_chunks limit (s ∷ ss) chunks =
      let more = chunks ++ of_section (length chunks) s.heading s.content s.lines in
      let rest = section_chunks limit ss more in
      let blank = section_chunks limit ss chunks in
      after_section s.lines (if leb limit (length more) then more else rest) blank

  -- The limit is tested before each of the others.
  unfoldable pub add_others : ℕ → ChunkType → List String → List PaperChunk → List PaperChunk
  add_others limit type [] chunks = chunks
  add_others limit type (c ∷ cs) chunks =
      let rest = add_others limit type cs (chunks ++ make_chunk type none c (length chunks) ∷ []) in
      if leb limit (length chunks) then chunks else rest

-- The whole document; the running number of a chunk is the count of those before.
unfoldable pub chunk_document : ℕ → IngestedDocument → List PaperChunk
unfolding section_chunks add_others
chunk_document limit doc =
    let s = doc.analysis_session_id in
    add_others s limit equation doc.normalized_equations (
      add_others s limit table doc.normalized_tables (
        add_others s limit figure doc.normalized_figures
          (section_chunks s limit doc.normalized_sections [])))
