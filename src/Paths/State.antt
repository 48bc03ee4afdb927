-- ===== src/Paths/State.antt =====
-- unseen.go: the default path of a tenant's cursor ends in the tenant's name.
use mathlib.Core.List.{append_assoc}
use wa_agent_pipeline.Base.{
  ℕ, Text, ◌≡◌, refl, sym, ap, ◌∙◌, Bool, true, false, List, [], ◌∷◌, ◌++◌, text_eq, nat_eq,
  if◌then◌else◌, arith, contains, beq_text,
}
use wa_agent_pipeline.Texts.{text, split}
use wa_agent_pipeline.Texts.Split.{split-snoc}
use wa_agent_pipeline.Paths.{
  slash, push, descend, path_of, is_rooted, or_dot, clean, join_paths, default_state_path,
}

abbrev cursor_name : Text → Text
cursor_name tenant = text "whatsapp_seen_ts." ++ tenant

descend-snoc :
    (rooted : Bool) (stack elements : List Text) (last : Text)
    → descend rooted stack (elements ++ last ∷ [])
      ≡ push rooted (descend rooted stack elements) last
unfolding descend
descend-snoc rooted stack [] last = refl
descend-snoc rooted stack (e ∷ elements) last =
    descend-snoc rooted (push rooted stack e) elements last

-- The path down to a last element.
abbrev above : List Text → Text
above [] = []
above (e ∷ rest) = path_of (e ∷ rest) ++ slash ∷ []

path_of-above : (stack : List Text) (last : Text) → path_of (last ∷ stack) ≡ above stack ++ last
unfolding path_of
path_of-above [] last = refl
path_of-above (e ∷ rest) last = sym (append_assoc (path_of (e ∷ rest)) (slash ∷ []) last)

-- The name of a cursor file is an element that stays.
push-cursor_name :
    (rooted : Bool) (stack : List Text) (tenant : Text)
    → push rooted stack (cursor_name tenant) ≡ cursor_name tenant ∷ stack
unfolding beq_text
push-cursor_name rooted stack tenant = refl

plain_name :
    (tenant : Text) → contains tenant slash ≡ false → contains (cursor_name tenant) slash ≡ false
unfolding contains
plain_name tenant h = h

-- What stands before the last separator, as Join puts it together.
abbrev folder : Text → Text
folder [] = text "state"
folder (c ∷ s) = (c ∷ s) ++ slash ∷ text "state"

default_state_path-folder :
    (root tenant : Text)
    → default_state_path root tenant ≡ clean (folder root ++ slash ∷ cursor_name tenant)
unfolding default_state_path join_paths
default_state_path-folder [] tenant = refl
default_state_path-folder (c ∷ s) tenant =
    ap clean (sym (append_assoc (c ∷ s) (slash ∷ text "state") (slash ∷ cursor_name tenant)))

abbrev stack_of : Text → List Text
stack_of folder = descend (is_rooted folder) [] (split slash folder)

rooted_folder : (root t : Text) → is_rooted (folder root ++ t) ≡ is_rooted (folder root)
rooted_folder [] t = refl
rooted_folder (c ∷ s) t = refl

-- The folder of the cursors, with the separator that ends it.
abbrev pub cursors : Text → Text
cursors root =
    if is_rooted (folder root)
    then slash ∷ above (stack_of (folder root))
    else above (stack_of (folder root))

elements_of :
    (root tenant : Text)
    → contains tenant slash ≡ false
    → descend (is_rooted (folder root)) [] (split slash (folder root ++ slash ∷ cursor_name tenant))
      ≡ cursor_name tenant ∷ stack_of (folder root)
elements_of root tenant h =
    ap (descend (is_rooted (folder root)) [])
      (split-snoc slash (folder root) (cursor_name tenant) (plain_name tenant h))
    ∙ descend-snoc (is_rooted (folder root)) [] (split slash (folder root)) (cursor_name tenant)
    ∙ push-cursor_name (is_rooted (folder root)) (stack_of (folder root)) tenant

or_dot-append : (s t : Text) (c : ℕ) → or_dot (s ++ c ∷ t) ≡ s ++ c ∷ t
or_dot-append [] t c = refl
or_dot-append (d ∷ s) t c = refl

-- A cleaned path, by its elements.
clean_by :
    (path : Text) (rooted : Bool) (body : Text)
    → is_rooted path ≡ rooted
    → path_of (descend rooted [] (split slash path)) ≡ body
    → clean path ≡ (if rooted then slash ∷ body else or_dot body)
unfolding clean
clean_by path rooted body e b =
    ap
      (λ r.
        let body = path_of (descend r [] (split slash path)) in
        if r then slash ∷ body else or_dot body)
      e
    ∙ ap (λ w. if rooted then slash ∷ w else or_dot w) b

in_cursors :
    (rooted : Bool) (stack : List Text) (tenant : Text)
    → (if rooted
        then slash ∷ above stack ++ cursor_name tenant
        else or_dot (above stack ++ cursor_name tenant))
      ≡ (if rooted then slash ∷ above stack else above stack) ++ cursor_name tenant
in_cursors true stack tenant = refl
in_cursors false stack tenant = or_dot-append (above stack) _ _

pub default_state_path-cursors :
    (root tenant : Text)
    → contains tenant slash ≡ false
    → default_state_path root tenant ≡ cursors root ++ cursor_name tenant
default_state_path-cursors root tenant h =
    let rooted = is_rooted (folder root) in
    let stack = stack_of (folder root) in
    default_state_path-folder root tenant
    ∙ clean_by (folder root ++ slash ∷ cursor_name tenant) rooted
        (above stack ++ cursor_name tenant) (rooted_folder root (slash ∷ cursor_name tenant))
        (ap path_of (elements_of root tenant h) ∙ path_of-above stack (cursor_name tenant))
    ∙ in_cursors rooted stack tenant

cancel_left : (s t u : Text) → s ++ t ≡ s ++ u → t ≡ u
cancel_left [] t u e = e
cancel_left (c ∷ s) t u e = cancel_left s t u (ground (arith, e))

-- Tenants whose names have no slash do not share a cursor file.
pub default_state_path_apart :
    (root tenant other : Text)
    → contains tenant slash ≡ false
    → contains other slash ≡ false
    → default_state_path root tenant ≡ default_state_path root other
    → tenant ≡ other
default_state_path_apart root tenant other h k e =
    cancel_left (text "whatsapp_seen_ts.") tenant other (
      cancel_left (cursors root) (cursor_name tenant) (cursor_name other) (
        sym (default_state_path-cursors root tenant h)
        ∙ e
        ∙ default_state_path-cursors root other k))
