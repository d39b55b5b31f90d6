-- ===== src/Registration/Neighborhood.antt =====
-- `TNeighborhood` of include/SlamCore/experimental/neighborhood.h. The singular value decomposition of
-- Eigen, with the descriptors from it, is an argument; the kd-tree is left out.
use ct_icp_comment.Common.{ℕ, Bool, true, false, ◌&&◌, List, ltb, length, if◌then◌else◌, Double}

pub data NeighborhoodType : Type 0 where
  unclassified linear planar volumic : NeighborhoodType

pub record Description (D V : Type 0) : Type 0 where
  pub planarity : D
  pub linearity : D
  pub a2d : D
  pub cov_det : D
  pub line : V
  pub normal : V
  pub barycenter : V

-- The flags that the registration asks for: `NORMAL | A2D` and `ALL_BUT_KDTREE`
pub data Values : Type 0 where
  no_values normal_a2d all_but_kdtree : Values

pub record Neighborhood (D V : Type 0) : Type 0 where
  pub points : List V
  pub description : Description D V
  pub computed_values : Values
  pub neighborhood : NeighborhoodType
  pub is_valid : Bool

abbrev pub min_neighborhood_size : ℕ
min_neighborhood_size = 5

abbrev pub has_planarity_and_linearity : Values → Bool
has_planarity_and_linearity no_values = false
has_planarity_and_linearity normal_a2d = false
has_planarity_and_linearity all_but_kdtree = true

abbrev pub has_cov_det : Values → Bool
has_cov_det no_values = false
has_cov_det normal_a2d = false
has_cov_det all_but_kdtree = true

module _ {D V : Type 0} where
  -- `ComputeNeighborhood`, where `describe` gives the description of the points from the one before
  unfoldable pub compute_neighborhood :
      (Values → List V → Description D V) → Values → Neighborhood D V → Neighborhood D V
  compute_neighborhood describe values n =
      if ltb (length n.points) min_neighborhood_size
      then record n { is_valid = false }
      else record n {
        description = describe values n.points;
        computed_values = values;
        is_valid = true;
      }

module _ {D V : Type 0} ⦃d : Double D⦄ where
  -- The definition takes the threshold on the linearity first.
  unfoldable pub classify_neighborhood : D → D → Neighborhood D V → Neighborhood D V
  classify_neighborhood linearity_thresh planarity_thresh n =
      if has_planarity_and_linearity n.computed_values
      then if d.lt planarity_thresh n.description.planarity
        then record n { neighborhood = planar }
        else if d.lt linearity_thresh n.description.linearity
        then record n { neighborhood = linear }
        else n
      else if has_cov_det n.computed_values && ltb 5 (length n.points)
      then record n { neighborhood = volumic }
      else record n { neighborhood = unclassified }
