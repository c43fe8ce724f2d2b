-- ===== src/Acl/Preview.antt =====
-- internal/acl/preview.go: what enabling enforcement would take away.
pub mod Affected
mod Tests
use ppz.Base.{
  ℕ, Bool, true, false, not, ◌&&◌, ◌||◌, Option, none, some, List, [], ◌∷◌, ◌++◌, if◌then◌else◌,
  nat_eq, ltb, length, any, Text, utf8, text_eq, split, last_or,
}
use ppz.Acl.Model.{Uuid, Principal}
use ppz.Acl.Compile.{PipeRef}
use ppz.Natsubj.Names.{auto_provisioned_pipes, is_one_of}
use ppz.Natsubj.Builders.{presence_pipe}

pub record SourceRef : Type 0 where
  pub handle : Text
  pub kind : Text
  pub owner_id : Uuid
  pub owner_is_member : Bool

pub record PreviewInput : Type 0 where
  pub org_owner_id : Uuid
  pub org_owner_is_placeholder : Bool
  pub members : List Principal
  pub sources : List SourceRef
  pub pipes : List PipeRef

-- `OrphanRef` and `TerminalRef`, and `PipeLoss`: a handle or a pipe with the owner's name.
pub record Owned : Type 0 where
  pub what : Text
  pub owner : Text

pub record Preview : Type 0 where
  pub orphaned_handles : List Owned
  pub placeholder_owned_org : Bool
  pub shared_terminals : List Owned
  pub inbox_read_loss : List Owned
  pub collared_user_pipes : List Owned
  pub affected : List Text

abbrev is_nil : List Owned → Bool
is_nil [] = true
is_nil (_ ∷ _) = false

unfoldable pub is_empty : Preview → Bool
is_empty p =
    not p.placeholder_owned_org
    && is_nil p.orphaned_handles
    && is_nil p.shared_terminals
    && is_nil p.inbox_read_loss
    && is_nil p.collared_user_pipes

unfoldable pub stdio_pipes : List Text
unfolding utf8
stdio_pipes = utf8 "stdin" ∷ utf8 "stdout" ∷ utf8 "stdctrl" ∷ utf8 "system" ∷ []

-- `names[id]`: the last member with the id, or the empty text.
unfoldable pub name_or : Text → List Principal → Uuid → Text
name_or default [] id = default
name_or default (m ∷ more) id = name_or (if nat_eq m.id id then m.name else default) more id

-- `sources[handle]`: the last source with the handle.
unfoldable pub source_or : Option SourceRef → List SourceRef → Text → Option SourceRef
source_or default [] handle = default
source_or default (s ∷ more) handle =
    source_or (if text_eq s.handle handle then some s else default) more handle

unfoldable pub preview_source : List Principal → SourceRef → Preview → Preview
unfolding utf8
preview_source members s p =
    let owned : Owned = record { what = s.handle; owner = name_or [] members s.owner_id } in
    let q =
      if not s.owner_is_member
      then record p { orphaned_handles = p.orphaned_handles ++ owned ∷ [] }
      else p in
    if text_eq s.kind (utf8 "pty")
    then record q { shared_terminals = q.shared_terminals ++ owned ∷ [] }
    else q

unfoldable pub preview_sources : List Principal → List SourceRef → Preview → Preview
unfolding preview_source
preview_sources members [] p = p
preview_sources members (s ∷ more) p = preview_sources members more (preview_source members s p)

-- The source that the first of at least two segments names.
unfoldable pub collar_of : List SourceRef → Text → Option SourceRef
collar_of sources path = elim (split path b'.') [
  | [] ↦ none
  | first ∷ rest ↦ elim rest [ [] ↦ none | _ ∷ _ ↦ source_or none sources first ]
]

unfoldable pub mark : Text → Preview → Preview
mark path p = record p { affected = p.affected ++ path ∷ [] }

-- The switch on the pipe's name.
unfoldable pub preview_pipe : Bool → Text → Text → Text → Preview → Preview
unfolding mark stdio_pipes utf8
preview_pipe others_exist path name owner p =
    let loss : Owned = record { what = path; owner = owner } in
    if text_eq name presence_pipe
    then p
    else if text_eq name (utf8 "inbox")
    then (if others_exist
        then mark path (record p { inbox_read_loss = p.inbox_read_loss ++ loss ∷ [] })
        else p)
    else if is_one_of name stdio_pipes
    then (if others_exist then mark path p else p)
    else if not (is_one_of name auto_provisioned_pipes)
    then (if others_exist
        then mark path (record p { collared_user_pipes = p.collared_user_pipes ++ loss ∷ [] })
        else p)
    else p

abbrev pub last_segment : Text → Text
last_segment path = last_or (split path b'.') []

unfoldable pub preview_pipes : PreviewInput → List PipeRef → Preview → Preview
unfolding preview_pipe
preview_pipes input [] p = p
preview_pipes input (pipe ∷ more) p =
    preview_pipes input more (elim (collar_of input.sources pipe.path) [
      | none ↦ p
      | some src ↦
          preview_pipe (ltb 1 (length input.members)) pipe.path (last_segment pipe.path)
            (name_or [] input.members src.owner_id) p
    ])

unfoldable pub build_preview : PreviewInput → Preview
unfolding preview_sources preview_pipes
build_preview input = preview_pipes input input.pipes (
    preview_sources input.members input.sources (record {
      orphaned_handles = [];
      placeholder_owned_org = input.org_owner_is_placeholder;
      shared_terminals = [];
      inbox_read_loss = [];
      collared_user_pipes = [];
      affected = [];
    }))
