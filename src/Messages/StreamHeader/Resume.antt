-- ===== src/Messages/StreamHeader/Resume.antt =====
-- A stream header may arrive in any number of pieces.
use libquicr.Prelude.{
  ℕ, zero, suc, ◌≡◌, refl, true, List, ◌++◌, Outcome, ok, throws, undefined, unfinished,
}
use libquicr.StreamBuffer.{decode_uint_v}
use libquicr.StreamBuffer.Decode.{decode_uint_v-IsStable}
use libquicr.Messages.Types.{
  SubgroupIdType, is_zero, set_from_first_object, explicit, stream_header_properties,
  StreamHeaderProperties,
}
use libquicr.Messages.Stage.{read_byte, read_byte-IsStable, Resumes, need-Resumes, done-Resumes}
use libquicr.Messages.StreamHeader.{
  StreamHeaderSubGroup, case0, case1, case2, case3, case4, subgroup_case, switch,
  parse_stream_header,
}

module _ (b more : List ℕ) (m : StreamHeaderSubGroup) where
  case4-Resumes :
      m.current_pos ≡ 4 → Resumes parse_stream_header more (case4 b m) (case4 (b ++ more) m)
  unfolding case4
  case4-Resumes e =
      need-Resumes parse_stream_header more read_byte b m _ (read_byte-IsStable b)
        (unfold parse_stream_header case4 in rw e) λ a rest. refl

subgroup_case-Resumes :
    (s : SubgroupIdType) (p : StreamHeaderProperties) (b more : List ℕ) (m : StreamHeaderSubGroup)
    → m.current_pos ≡ 3
    → stream_header_properties m.type ≡ ok p
    → p.subgroup_id_type ≡ s
    → Resumes parse_stream_header more (subgroup_case s b m) (subgroup_case s (b ++ more) m)
unfolding subgroup_case
subgroup_case-Resumes is_zero p b more m e h t = case4-Resumes b more _ (rw e)
subgroup_case-Resumes set_from_first_object p b more m e h t = case4-Resumes b more _ (rw e)
subgroup_case-Resumes explicit p b more m e h t =
    need-Resumes parse_stream_header more (decode_uint_v true) b m _ (decode_uint_v-IsStable b)
      (unfold parse_stream_header case3 subgroup_case in rw (e, h, t))
      λ a rest. case4-Resumes rest more _ (rw e)

properties-Resumes :
    (r : Outcome StreamHeaderProperties) (b more : List ℕ) (m : StreamHeaderSubGroup)
    → m.current_pos ≡ 3
    → stream_header_properties m.type ≡ r
    → Resumes parse_stream_header more (case3 b m) (case3 (b ++ more) m)
unfolding case3
properties-Resumes (ok p) b more m e h =
    rw h (subgroup_case-Resumes p.subgroup_id_type p b more m e h refl)
properties-Resumes (throws x) b more m e h = rw h
properties-Resumes undefined b more m e h = rw h
properties-Resumes unfinished b more m e h = rw h

module _ (b more : List ℕ) (m : StreamHeaderSubGroup) where
  case2-Resumes :
      m.current_pos ≡ 2 → Resumes parse_stream_header more (case2 b m) (case2 (b ++ more) m)
  unfolding case2
  case2-Resumes e =
      need-Resumes parse_stream_header more (decode_uint_v true) b m _ (decode_uint_v-IsStable b)
        (unfold parse_stream_header case2 in rw e)
        λ a rest. properties-Resumes _ rest more _ (rw e) refl

module _ (b more : List ℕ) (m : StreamHeaderSubGroup) where
  case1-Resumes :
      m.current_pos ≡ 1 → Resumes parse_stream_header more (case1 b m) (case1 (b ++ more) m)
  unfolding case1
  case1-Resumes e =
      need-Resumes parse_stream_header more (decode_uint_v true) b m _ (decode_uint_v-IsStable b)
        (unfold parse_stream_header case1 in rw e) λ a rest. case2-Resumes rest more _ (rw e)

module _ (b more : List ℕ) (m : StreamHeaderSubGroup) where
  case0-Resumes :
      m.current_pos ≡ 0 → Resumes parse_stream_header more (case0 b m) (case0 (b ++ more) m)
  unfolding case0
  case0-Resumes e =
      need-Resumes parse_stream_header more (decode_uint_v true) b m _ (decode_uint_v-IsStable b)
        (unfold parse_stream_header case0 in rw e) λ a rest. case1-Resumes rest more _ (rw e)

switch-Resumes :
    (n : ℕ) (b more : List ℕ) (m : StreamHeaderSubGroup)
    → m.current_pos ≡ n
    → Resumes parse_stream_header more (switch n b m) (switch n (b ++ more) m)
switch-Resumes zero b more m e = case0-Resumes b more m e
switch-Resumes (suc zero) b more m e = case1-Resumes b more m e
switch-Resumes (suc (suc zero)) b more m e = case2-Resumes b more m e
switch-Resumes (suc (suc (suc zero))) b more m e = properties-Resumes _ b more m e refl
switch-Resumes (suc (suc (suc (suc zero)))) b more m e = case4-Resumes b more m e
switch-Resumes (suc (suc (suc (suc (suc n))))) b more m e =
    done-Resumes parse_stream_header m.parse_completed b more m
      (λ b. unfold parse_stream_header in rw e)

-- Whatever the header's parser did with the first bytes, with more bytes behind them it does what it
-- would have done with all of them at once: it goes on where it stopped, leaves what follows a
-- complete header, and refuses an unknown type either way.
pub parse_stream_header-Resumes :
    (b more : List ℕ) (m : StreamHeaderSubGroup)
    → Resumes parse_stream_header more (parse_stream_header b m) (parse_stream_header (b ++ more) m)
unfolding parse_stream_header
parse_stream_header-Resumes b more m = switch-Resumes m.current_pos b more m refl
