-- ===== src/Tests/Datasets.antt =====
-- Sequences and datasets at concrete values: a cloud is its list of timestamps, which are numbers, and
-- a pose is its timestamp.
use Prim.Native.String.{String}
use ct_icp_comment.Common.{
  ℕ, ◌≡◌, refl, true, false, Option, none, some, List, [], ◌∷◌, arith, length, pos, negsuc, Outcome,
  ok, fail, missing_name, require, fixed_double,
}
use ct_icp_comment.Buffers.Schema.{is_some}
use ct_icp_comment.Datasets.{
  SequenceInfo, Frame, Clouds, start_at, drain, get_frames, process_frame, with_bounds,
}
use ct_icp_comment.Datasets.Files.{
  FileSequence, has_next, num_frames, set_init_frame, next_frame, get_frame, next_unfiltered_frame,
  get_unfiltered_frame, file_path_of, with_ground_truth_poses,
}
use ct_icp_comment.Datasets.Synthetic as Synthetic
use ct_icp_comment.Datasets.Synthetic.{new_sequence, drain-intervals}
use ct_icp_comment.Datasets.Draining.{drain-get_frames}
use ct_icp_comment.Datasets.Catalog.{
  Sequences, name_ids, has_sequence, get_sequence, build_custom_dataset,
}
use ct_icp_comment.Datasets.Catalog.Lookup.{last_named, get_sequence-last_named}

abbrev info_of : String → SequenceInfo
info_of name = record {
  sequence_name = name;
  label = "";
  sequence_id = negsuc 0;
  sequence_size = negsuc 0;
  with_ground_truth = false;
}

-- The first and the last of the timestamps
abbrev bounds : List ℕ → Option (ℕ × ℕ)
bounds [] = none
bounds (t ∷ []) = some (t, t)
bounds (t ∷ u ∷ ts) = elim (bounds (u ∷ ts)) [ none ↦ none | some b ↦ some (t, b.1) ]

abbrev clouds : Clouds ℕ (List ℕ) ℕ (List ℕ)
clouds = record {
  register_fields = λ p. ok p;
  timestamps = λ p. some p;
  has_index_frame = λ p. true;
  add_index_frame = λ p. p;
  minmax_element = bounds;
  join_path = λ root name. name;
  read_frame = λ path. ok (record {
    pointcloud = 3 ∷ 5 ∷ [];
    timestamp_min = 0;
    timestamp_max = 0;
    begin_pose = none;
    end_pose = none;
    file_path = path;
  });
  create = λ qs. ok qs;
  poses = λ g. g;
  interpolate_pose = λ g t. ok t;
  dest_timestamp = λ q. q;
  unset_timestamp = 0;
  generate_frame = λ t u index. t ∷ u ∷ [];
}

-- Four files, of which two are asked for
abbrev four_files : FileSequence (List ℕ) (List ℕ)
four_files = record {
  state = record {
    seq_info = info_of "run";
    max_num_frames = pos 2;
    init_frame_id = pos 0;
    current_frame_id = pos 0;
    filter = none;
  };
  root_dir_path = "";
  file_names = none;
  file_pattern = some (λ i. "frame");
  full_sequence_size = 4;
  ground_truth = none;
}

abbrev count_frames : Option (Outcome (List (Frame ℕ (List ℕ) ℕ))) → Option ℕ
count_frames none = none
count_frames (some (fail e)) = none
count_frames (some (ok fs)) = some (length fs)

drain_test :
    count_frames (drain has_next (next_frame clouds) 5 (set_init_frame (pos 1) four_files)) ≡ some 2
unfolding drain has_next next_frame next_unfiltered_frame get_unfiltered_frame file_path_of
    with_ground_truth_poses process_frame with_bounds
drain_test = refl

drain-get_frames_example :
    drain has_next (next_frame clouds) 5 (set_init_frame (pos 1) four_files)
    ≡ some (
        get_frames (get_frame clouds four_files) 1 (num_frames (set_init_frame (pos 1) four_files)))
unfolding num_frames
drain-get_frames_example = drain-get_frames clouds four_files 1 5 (omega arith)

-- A trajectory of three poses, and a loop over it from the second
abbrev three_poses : Synthetic.SyntheticSequence (List ℕ) ℕ
three_poses = new_sequence (info_of "boxes") (1 ∷ 4 ∷ 9 ∷ [])

abbrev second_pose : Synthetic.SyntheticSequence (List ℕ) ℕ
second_pose = let s = three_poses in record s { state = start_at (pos 1) s.state }

drain-intervals_example :
    (Synthetic.set_init_frame (pos 1) three_poses ≡ ok second_pose)
    × (drain Synthetic.has_next (Synthetic.next_frame clouds) 4 second_pose
        ≡ some (get_frames (Synthetic.get_frame clouds second_pose) 1 1))
    × (Synthetic.num_frames second_pose ≡ 3)
unfolding new_sequence
drain-intervals_example =
    drain-intervals clouds (info_of "boxes") (1 ∷ 4 ∷ 9 ∷ []) 1 4 (omega arith) (omega arith)

-- A sequence is its information here.
abbrev named : Sequences SequenceInfo ℕ
named = record {
  get_info = λ s. s;
  ground_truth = λ s. none;
  set_init_frame = λ i s. ok s;
  set_max_num_frames = λ n s. s;
}

get_sequence_test :
    get_sequence "a" (build_custom_dataset named (info_of "a" ∷ info_of "b" ∷ []))
    ≡ ok (info_of "a")
unfolding get_sequence build_custom_dataset has_sequence name_ids
get_sequence_test = refl

get_sequence-last_named_example :
    (has_sequence "b" (build_custom_dataset named (info_of "a" ∷ info_of "b" ∷ []))
      ≡ is_some (last_named named "b" none (info_of "a" ∷ info_of "b" ∷ [])))
    × (get_sequence "b" (build_custom_dataset named (info_of "a" ∷ info_of "b" ∷ []))
        ≡ require (last_named named "b" none (info_of "a" ∷ info_of "b" ∷ [])) missing_name)
get_sequence-last_named_example = get_sequence-last_named named "b" (info_of "a" ∷ info_of "b" ∷ [])
