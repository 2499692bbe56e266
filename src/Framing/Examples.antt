-- ===== src/Framing/Examples.antt =====
-- Tests and instances of the theorems on the transports.
use esp32_remot_control.Prelude.{◌≡◌, refl, List, [], ◌∷◌, Bytes, codes}
use esp32_remot_control.Framing.{copy_chunk, client_buffer, client_loop, client_task}
use esp32_remot_control.Framing.Transports.{dispatch_all, client_task_dispatches}

-- A dispatcher that keeps the lines, newest first.
abbrev keep : Bytes → List Bytes → List Bytes
keep line s = line ∷ s

abbrev two_buffers : List Bytes
two_buffers = codes "ping\r\n\nver" ∷ codes "sion\ndi" ∷ []

client_two_buffers :
    client_task keep two_buffers [] ≡ codes "di" ∷ codes "version" ∷ codes "ping" ∷ []
unfolding client_task client_loop client_buffer copy_chunk
client_two_buffers = refl

client_task_dispatches_example :
    client_task keep two_buffers []
    ≡ dispatch_all keep (codes "ping\r" ∷ [] ∷ codes "version" ∷ codes "di" ∷ []) []
client_task_dispatches_example = client_task_dispatches keep two_buffers []
