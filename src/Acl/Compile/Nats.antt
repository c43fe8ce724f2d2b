-- ===== src/Acl/Compile/Nats.antt =====
-- What the NATS server does with a permission set. The server is not part of the repository: how it
-- compares a subject with a pattern is a parameter, with its documented rule as a law.
use ppz.Base.{
  ◌≡◌, Bool, true, false, not, ◌&&◌, ◌||◌, List, [], ◌∷◌, if◌then◌else◌, any, Text, utf8, text_eq,
  split,
}
use ppz.Acl.Compile.{Permissions}

unfoldable pub star : Text
unfolding utf8
star = utf8 "*"

unfoldable pub tail : Text
unfolding utf8
tail = utf8 ">"

is_nil : List Text → Bool
is_nil [] = true
is_nil (t ∷ ts) = false

-- Token by token: `*` stands for one token, `>` at the end for one or more.
unfoldable pub subsumes : List Text → List Text → Bool
unfolding is_nil
subsumes [] ts = is_nil ts
subsumes (p ∷ ps) [] = false
subsumes (p ∷ ps) (t ∷ ts) =
    if text_eq p tail then is_nil ps else (text_eq p star || text_eq p t) && subsumes ps ts

pub record Nats : Type 0 where
  pub covers : Text → Text → Bool
  pub covers_law :
      (pattern subject : Text)
      → covers pattern subject ≡ subsumes (split pattern b'.') (split subject b'.')

-- An operation is permitted if some allow covers its subject and no deny does.
module _ (nats : Nats) where
  abbrev pub permits : List Text → List Text → Text → Bool
  permits allow deny subject =
      any (λ a. nats.covers a subject) allow && not (any (λ d. nats.covers d subject) deny)

  abbrev pub permits_pub : Permissions → Text → Bool
  permits_pub p subject = permits p.pub_allow p.pub_deny subject

  abbrev pub permits_sub : Permissions → Text → Bool
  permits_sub p subject = permits p.sub_allow p.sub_deny subject
