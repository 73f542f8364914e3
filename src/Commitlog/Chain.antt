-- ===== src/Commitlog/Chain.antt =====
-- The commit log as an abstract chain: a list of distinct tables, and for each view the number of
-- them that it has passed.
mod Lists
mod Cursors
mod Views
pub use Lists.*
pub use Cursors.*
pub use Views.*
use volans.Prelude.{ℕ, ◌≤◌, ◌<◌, ◌≡◌, List, length, get_elem?, All}
use volans.Commitlog.{Commitlog}

-- The tables of the chain follow one another over `next`, from first to last, are distinct and
-- were created before; every view has passed at most all of them.
pub record Represents (c : Commitlog) (chain offs : List ℕ) : Type 0 where
  pub views : c.views ≡ cursors chain offs
  pub first : c.firstchangelog ≡ get_elem? chain 0
  pub last : c.lastchangelog ≡ last_of chain
  pub linked : Linked c.next chain
  pub distinct : Distinct chain
  pub created : All (λ x. x < c.fresh) chain
  pub within : All (λ k. k ≤ length chain) offs
