-- ===== src/Anlz.antt =====
-- crates/bvault-core/src/anlz.rs: the analysis files (.DAT, .EXT and .2EX) of a track.
pub mod Sections
pub mod Cues
pub mod Files
pub mod Tags
pub mod SectionLengths
pub mod Chain
pub mod CueLengths
pub mod Path
pub mod Tests
