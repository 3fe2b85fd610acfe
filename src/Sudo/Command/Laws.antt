-- ===== src/Sudo/Command/Laws.antt =====
-- The children that are run, under either elevation (tui/src/sudo.rs).
use nixnas.Base.{ℕ, ◌≡◌, refl, List, [], ◌∷◌, ◌++◌}
use nixnas.Base.Text.{Text, codes}
use nixnas.Sudo.Command.{Elevation, Command, captured, with_input}

-- The child, as itself or under sudo.
abbrev pub IsChild : Elevation → Text → List Text → Command → Type 0
IsChild Elevation.root program args c = (c.program ≡ program) × (c.args ≡ args)
IsChild (Elevation.sudo _) program args c =
    (c.program ≡ codes "sudo") × ((flags : List Text) × (c.args ≡ flags ++ (program ∷ args)))

pub captured-IsChild :
    (elev : Elevation) (program : Text) (args : List Text)
    → IsChild elev program args (captured elev program args)
unfolding captured
captured-IsChild Elevation.root program args = (refl, refl)
captured-IsChild (Elevation.sudo _) program args = (refl, (codes "-S" ∷ codes "-p" ∷ [] ∷ [], refl))

pub with_input-IsChild :
    (elev : Elevation) (program : Text) (args : List Text) (input : List ℕ)
    → let c = with_input elev program args input in IsChild elev program args c × (c.input ≡ input)
unfolding with_input
with_input-IsChild Elevation.root program args input = ((refl, refl), refl)
with_input-IsChild (Elevation.sudo _) program args input = ((refl, (codes "-n" ∷ [], refl)), refl)
