-- ===== src/Bpe.antt =====
-- tokenizer/bpe_tokenizer.h and tokenizer/bpe_tokenizer.cpp (src/DesireeIA.LocaleEngine/src): the
-- GPT2 tokenizer. A `std::string` is a list of bytes. A loop over positions in a text is a
-- recursion on what is left of it, with the length as its bound. The children have the
-- byte map, the cut into chunks, the merges, and the methods.
pub mod ByteMap
pub mod Chunks
pub mod Merge
pub mod Encode
pub mod Maps
pub mod Cover
pub mod Merged
mod Tests
