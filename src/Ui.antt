-- ===== src/Ui.antt =====
-- What the front end shows: the drawing of pmindd/src/minder.rs and pmindd/src/ui, as a description of
-- what is drawn. Where on the terminal it stands, colours and borders are left out.
pub mod History
pub mod Axes
pub mod Screen
pub mod Highlight
pub mod Terminal
