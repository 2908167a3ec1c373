-- ===== src/Terminal.antt =====
-- terminal-ansi.js: the parser of tmux `capture-pane -e` output.
pub mod Style
pub mod Sgr
pub mod Ansi
