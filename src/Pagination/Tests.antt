-- ===== src/Pagination/Tests.antt =====
-- Concrete windows.
use aniparse.Prelude.{ℕ, []}
use aniparse.Prelude.Int.{pos}
use aniparse.Pagination.{PageResults}

abbrev blank : PageResults ℕ
blank = record { results = []; next_offset = pos 0; total_count = 9 }
