-- ===== src/Client/Paging.antt =====
-- The buttons under a table that is shown page by page, which
-- frontend/features/functions/components/FunctionDetails.tsx and
-- frontend/features/servers/components/InstanceDetailClient.tsx have alike.
use mathlib.Core.Path.{subst}
use foxplay_game.Common.{
  ℕ, zero, suc, ◌+◌, ◌-◌, ◌<◌, ◌≤◌, ◌≡◌, ◌↔◌, arith, leb, ◌==◌, if◌then◌else◌,
}
use foxplay_game.Client.Runs.{total_pages}

pub data Button : Type 0 where
  prev next : Button

-- What a click does to the page; a button that is disabled or not shown does nothing.
unfoldable pub click : Button → ℕ → ℕ → ℕ
click prev total page = if leb total 1 then page else if page == 0 then page else page - 1
click next total page =
    if leb total 1 then page else if leb total (page + 1) then page else page + 1

-- The pages that can be shown: the first one, by clicks, and while the number of rows grows.
pub data IsShown : ℕ → ℕ → Type 0 where
  first : (rows : ℕ) → IsShown rows 0
  clicked :
      {rows page : ℕ} (b : Button)
      → IsShown rows page
      → IsShown rows (click b (total_pages rows) page)
  grown : {rows page : ℕ} (more : ℕ) → IsShown rows page → IsShown (rows + more) page

click_lt : (b : Button) (total page : ℕ) → page < total → click b total page < total
unfolding click
click_lt prev total page h = ground arith
click_lt next total page h = ground arith

total_pages_grow : (rows more : ℕ) → total_pages rows ≤ total_pages (rows + more)
unfolding total_pages
total_pages_grow rows more = ground arith

total_pages_pos : (rows : ℕ) → 0 < total_pages rows
unfolding total_pages
total_pages_pos rows = ground arith

click-next : (total page : ℕ) → suc page < total → click next total page ≡ suc page
unfolding click
click-next total page h = ground arith

IsShown-lt : {rows page : ℕ} → IsShown rows page → page < total_pages rows
IsShown-lt (first rows) = total_pages_pos rows
IsShown-lt (clicked b h) = click_lt b _ _ (IsShown-lt h)
IsShown-lt (grown {rows} more h) = omega (arith, total_pages_grow rows more, IsShown-lt h)

lt-IsShown : (rows page : ℕ) → page < total_pages rows → IsShown rows page
lt-IsShown rows zero h = first rows
lt-IsShown rows (suc page) h =
    subst (IsShown rows) (click-next (total_pages rows) page h)
      (clicked next (lt-IsShown rows page (omega (arith, h))))

-- The page that is shown has a number below the number of pages, while rows are added and the
-- buttons are clicked; and every page below that number can be reached.
pub IsShown-iff : (rows page : ℕ) → IsShown rows page ↔ (page < total_pages rows)
IsShown-iff rows page = (IsShown-lt, lt-IsShown rows page)
