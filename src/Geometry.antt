-- ===== src/Geometry.antt =====
-- What the code takes from Eigen: vectors, quaternions and their operations, as an interface. With it
-- `SE3` and its operations (include/SlamCore/types.h), `Voxel` (types.h and src/SlamCore/types.cxx),
-- and the points of a frame.
use ct_icp_comment.Common.{
  ℕ, ◌+◌, ◌-◌, ◌*◌, ◌≡◌, refl, Bool, true, false, ◌&&◌, ◌||◌, arith, ◌==◌, ltb_ℤ, ℤ, pos, negsuc,
  Double, fmin, fmax, fixed_double, unit, Outcome, ok, ◌>>◌, check, not_a_rotation, ◌↔◌,
}

-- `Tr<T>` is V.
pub record Vectors (D V : Type 0) : Type 0 where
  pub vec_zero : V
  pub plus : V → V → V
  pub minus : V → V → V
  pub negate : V → V
  pub scale : D → V → V
  pub dot : V → V → D
  pub norm : V → D
  pub squared_norm : V → D
  pub x : V → D
  pub y : V → D
  pub z : V → D

-- `Quat<T>` is Q.
pub record Quaternions (D V Q : Type 0) : Type 0 where
  pub quat_identity : Q
  pub quat_times : Q → Q → Q
  pub quat_inverse : Q → Q
  pub normalized : Q → Q
  pub rotate : Q → V → V
  pub slerp : Q → D → Q → Q
  -- the trace of R(a) * R(b)^T
  pub rotation_trace : Q → Q → D

pub record Se3 (D V Q : Type 0) : Type 0 where
  pub quat : Q
  pub tr : V

pub record Voxel : Type 0 where
  pub x : ℤ
  pub y : ℤ
  pub z : ℤ

abbrev pub eq_ℤ : ℤ → ℤ → Bool
eq_ℤ (pos a) (pos b) = a == b
eq_ℤ (negsuc a) (negsuc b) = a == b
eq_ℤ _ _ = false

abbrev pub eq_voxel : Voxel → Voxel → Bool
eq_voxel a b = eq_ℤ b.x a.x && (eq_ℤ b.y a.y && eq_ℤ b.z a.z)

unfoldable pub less_voxel : Voxel → Voxel → Bool
less_voxel a b =
    ltb_ℤ a.x b.x || (eq_ℤ a.x b.x && (ltb_ℤ a.y b.y || (eq_ℤ a.y b.y && ltb_ℤ a.z b.z)))

pub eq_ℤ_iff : (a b : ℤ) → (eq_ℤ a b ≡ true) ↔ (a ≡ b)
eq_ℤ_iff (pos a) (pos b) = ground arith
eq_ℤ_iff (pos a) (negsuc b) = ground arith
eq_ℤ_iff (negsuc a) (pos b) = ground arith
eq_ℤ_iff (negsuc a) (negsuc b) = ground arith

pub eq_voxel_iff : (a b : Voxel) → (eq_voxel a b ≡ true) ↔ (a ≡ b)
eq_voxel_iff a b = ground (arith, eq_ℤ_iff b.x a.x, eq_ℤ_iff b.y a.y, eq_ℤ_iff b.z a.z)

pub eq_voxel_refl : (a : Voxel) → eq_voxel a a ≡ true
eq_voxel_refl a = (eq_voxel_iff a a).1 refl

pub record WPoint (D V Q : Type 0) : Type 0 where
  pub raw_point : V
  pub timestamp : D
  pub world_point : V
  pub index_frame : ℕ

module _ {D V : Type 0} ⦃d : Double D⦄ ⦃v : Vectors D V⦄ where
  -- `Voxel::Coordinates` on the point's vector
  unfoldable pub coordinates : V → D → Voxel
  coordinates point voxel_size = record {
    x = d.to_int (d.div (v.x point) voxel_size);
    y = d.to_int (d.div (v.y point) voxel_size);
    z = d.to_int (d.div (v.z point) voxel_size);
  }

module _ {D V Q : Type 0} ⦃d : Double D⦄ ⦃v : Vectors D V⦄ ⦃q : Quaternions D V Q⦄ where
  -- `SE3()`
  abbrev pub se3_identity : Se3 D V Q
  se3_identity = record { quat = q.quat_identity; tr = v.vec_zero }

  unfoldable pub se3_inverse : Se3 D V Q → Se3 D V Q
  se3_inverse p =
      let quat = q.quat_inverse p.quat in record { quat = quat; tr = v.negate (q.rotate quat p.tr) }

  unfoldable pub se3_times : Se3 D V Q → Se3 D V Q → Se3 D V Q
  se3_times p r = record {
    quat = q.normalized (q.quat_times p.quat r.quat);
    tr = v.plus (q.rotate (q.normalized p.quat) r.tr) p.tr;
  }

  unfoldable pub se3_apply : Se3 D V Q → V → V
  se3_apply p point = v.plus (q.rotate (q.normalized p.quat) point) p.tr

  unfoldable pub se3_interpolate : Se3 D V Q → Se3 D V Q → D → Se3 D V Q
  se3_interpolate p r weight = record {
    quat = q.slerp p.quat weight r.quat;
    tr = v.plus (v.scale (d.sub (d.decimal 1 0) weight) p.tr) (v.scale weight r.tr);
  }

  -- `AngularDistance`, in degrees; the trace is checked to be that of a rotation
  unfoldable pub angular_distance : Se3 D V Q → Se3 D V Q → Outcome D
  angular_distance l r = do
    let one : D = d.decimal 1 0
    let n : D = d.div (d.sub (q.rotation_trace l.quat r.quat) one) (d.decimal 2 0)
    check (d.lt n (d.add one (d.decimal 1 8)) && d.le (d.sub (d.neg one) (d.decimal 1 8)) n)
        not_a_rotation
    ok (d.mul (d.acos (fmax (fmin n one) (d.neg one))) (d.div (d.decimal 180 0) d.pi))

-- A model of the interfaces: points on a half line, and no rotations. The trace of the identity is rounded
-- down, since the constant 1e-8 is 0 in fixed point.
instance abbrev pub line_vectors : Vectors ℕ ℕ
line_vectors = record {
  vec_zero = 0;
  plus = ◌+◌;
  minus = λ a b. (a - b) + (b - a);
  negate = λ a. a;
  scale = fixed_double.mul;
  dot = fixed_double.mul;
  norm = λ a. a;
  squared_norm = λ a. fixed_double.mul a a;
  x = λ a. a;
  y = λ a. a;
  z = λ a. a;
}

instance abbrev pub line_quaternions : Quaternions ℕ ℕ (Unit {0})
line_quaternions = record {
  quat_identity = tt;
  quat_times = λ a b. tt;
  quat_inverse = λ a. tt;
  normalized = λ a. tt;
  rotate = λ q v. v;
  slerp = λ a w b. tt;
  rotation_trace = λ a b. 3 * unit - 2;
}
