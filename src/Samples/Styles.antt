-- ===== src/Samples/Styles.antt =====
-- The limit of style runs at a concrete text.
use pane_fleet.Base.{◌≡◌, ◌≤◌, some, length, arith}
use pane_fleet.Terminal.Ansi.{parse_terminal_ansi}
use pane_fleet.Terminal.Ansi.Limit.{limited, style_runs-bounded}
use pane_fleet.Samples.Others.{colored}

style_runs-bounded_example :
    (length (parse_terminal_ansi colored (some 0)).style_runs ≤ 0)
    × (parse_terminal_ansi colored (some 0) ≡ limited (parse_terminal_ansi colored (some 12000)) 0)
style_runs-bounded_example = style_runs-bounded colored 0 12000 (omega arith) (omega arith)
