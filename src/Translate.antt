-- ===== src/Translate.antt =====
-- translate/: the third-party translator's formats behind one checked constructor.
pub mod Translator
mod Checked
mod Tests
