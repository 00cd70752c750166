-- ===== src/Tests/Trees.antt =====
-- JSON values as trees, with a printer and a parser of a simple code: the laws of Json can hold.
mod Code
mod Laws
pub use Laws.{tree_json, tree_json-IsLawful}
unfoldable pub use Laws.{is_clean}
pub use Code.{Tree, plain, opaque, node, end, member}
unfoldable pub use Code.{encode, decode_text, decode}
