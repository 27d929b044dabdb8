-- ===== src/Markdown.antt =====
-- static/widget/widget.js, the Markdown renderer.
pub mod Lines
pub mod Inline
pub mod Links
pub mod Safe
pub mod Table
pub mod Blocks
pub mod Rounds
pub mod Balance
pub mod Fences
pub mod Cuts
pub mod Patterns
mod Tests
