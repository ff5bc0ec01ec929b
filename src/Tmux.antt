-- ===== src/Tmux.antt =====
-- internal/tmux: the tmux command line, the title filter and the window sizes forced by a mobile.
pub mod TitleFilter
pub mod Server
pub mod Client
pub mod Listing
pub mod Resize
mod Tests
