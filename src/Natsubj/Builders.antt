-- ===== src/Natsubj/Builders.antt =====
-- internal/natsubj/subjects.go and presence.go: the builders and the parser of subjects.
use ppz.Base.{
  ◌+◌, Bool, false, not, ◌&&◌, ◌||◌, Option, none, some, List, [], ◌∷◌, ◌++◌, if◌then◌else◌, nat_eq,
  ltb, any, length, Text, utf8, text_eq, split, join, has_prefix, replace_byte, remove_byte, take,
  last_or,
}
use ppz.Acl.Model.{Uuid}
use ppz.Natsubj.Uuids.{Uuids}

unfoldable pub presence_segment : Text
unfolding utf8
presence_segment = utf8 "_presence"

unfoldable pub presence_pipe : Text
unfolding utf8
presence_pipe = utf8 "heartbeat"

unfoldable pub system_segment : Text
unfolding utf8
system_segment = utf8 "_system"

unfoldable pub stream_prefixes : List Text
unfolding utf8
stream_prefixes = utf8 "source_" ∷ utf8 "pipe_" ∷ utf8 "presence_" ∷ []

unfoldable pub is_ppz_stream : Text → Bool
unfolding stream_prefixes
is_ppz_stream name = any (λ p. has_prefix name p) stream_prefixes

-- `parts[1] == seg && …` on the parts of a subject.
unfoldable pub is_system_acl_subject : Text → Bool
unfolding system_segment utf8
is_system_acl_subject subject = elim (split subject b'.') [
  | [] ↦ false
  | a ∷ rest ↦ elim rest [
    | [] ↦ false
    | b ∷ rest' ↦ elim rest' [
      | [] ↦ false
      | c ∷ more ↦ nat_eq (length more) 0 && text_eq b system_segment && text_eq c (utf8 "acl")
    ]
  ]
]

module _ (uuids : Uuids) where
  open uuids use {uuid_string, uuid_parse}

  -- The first eight hexadecimal digits of the account.
  unfoldable pub org_short : Uuid → Text
  org_short account_id =
      let hex = remove_byte (uuid_string account_id) b'-' in
      if ltb 8 (length hex) then take 8 hex else hex

  unfoldable pub subject : Uuid → Text → Text → Text
  subject account_id handle pipe = uuid_string account_id ++ b'.' ∷ (handle ++ b'.' ∷ pipe)

  unfoldable pub presence_subject : Uuid → Text → Text → Text
  presence_subject account_id manifold handle =
      uuid_string account_id
      ++ b'.'
        ∷ (presence_segment
            ++ ((if not (text_eq manifold []) then b'.' ∷ manifold else []) ++ b'.' ∷ handle))

  unfoldable pub build_subject : Uuid → Text → Text → Text → Text
  build_subject account_id manifold source pipe =
      if text_eq pipe presence_pipe
      then presence_subject account_id manifold source
      else uuid_string account_id
        ++ ((if not (text_eq manifold []) then b'.' ∷ manifold else [])
            ++ ((if not (text_eq source []) then b'.' ∷ source else []) ++ b'.' ∷ pipe))

  unfoldable pub stream_name : Uuid → Text → Text → Text
  unfolding utf8
  stream_name account_id handle pipe =
      utf8 "source_" ++ (org_short account_id ++ b'_' ∷ (handle ++ b'_' ∷ pipe))

  unfoldable pub presence_stream_name : Uuid → Text → Text → Text
  presence_stream_name account_id manifold handle =
      join
        (utf8 "presence"
          ∷ org_short account_id
          ∷ ((if not (text_eq manifold []) then replace_byte manifold b'.' b'_' ∷ [] else [])
              ++ handle ∷ []))
        (utf8 "_")

  unfoldable pub build_stream_name : Uuid → Text → Text → Text → Text
  build_stream_name account_id manifold source name =
      if text_eq name presence_pipe
      then presence_stream_name account_id manifold source
      else join
          (utf8 "pipe"
            ∷ org_short account_id
            ∷ ((if not (text_eq manifold []) then replace_byte manifold b'.' b'_' ∷ [] else [])
                ++ ((if not (text_eq source []) then source ∷ [] else []) ++ name ∷ [])))
          (utf8 "_")

  unfoldable pub org_subscription : Uuid → Text
  unfolding utf8
  org_subscription account_id = uuid_string account_id ++ utf8 ".>"

  unfoldable pub system_prefix : Uuid → Text
  system_prefix account_id = uuid_string account_id ++ b'.' ∷ (system_segment ++ utf8 ".>")

  unfoldable pub system_acl_subject : Uuid → Text
  system_acl_subject account_id = uuid_string account_id ++ b'.' ∷ (system_segment ++ utf8 ".acl")

  unfoldable pub presence_prefix : Uuid → Text
  presence_prefix account_id = uuid_string account_id ++ b'.' ∷ (presence_segment ++ utf8 ".>")

  -- The handle of a presence subject; `none` is `"", false`.
  unfoldable pub parse_presence_parts : List Text → Option Text
  parse_presence_parts [] = none
  parse_presence_parts (a ∷ rest) = elim rest [
    | [] ↦ none
    | b ∷ more ↦
        if ltb (length more + 2) 3 || not (text_eq b presence_segment)
        then none
        else elim (uuid_parse a) [
          | none ↦ none
          | some _ ↦ let handle = last_or more [] in if text_eq handle [] then none else some handle
        ]
  ]

  unfoldable pub parse_presence_subject : Text → Option Text
  unfolding parse_presence_parts
  parse_presence_subject s = parse_presence_parts (split s b'.')
