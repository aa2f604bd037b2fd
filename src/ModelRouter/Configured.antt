-- ===== src/ModelRouter/Configured.antt =====
-- The configured names and their check.
use agent_sam.Prelude.{String, List, [], ◌∷◌, ◌≢◌, In, nat_eq, option_eq}

-- The names are not empty, differ from each other and from those of `seen`.
abbrev pub IsNew : List String → List String → Type 0
IsNew seen [] = Unit
IsNew seen (m ∷ names) = (m ≢ "") × (¬ In m seen) × IsNew (m ∷ seen) names
