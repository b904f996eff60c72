-- ===== src/Machine/Pic.antt =====
-- src/int/pic.cpp: the two interrupt controllers.
use cpp_os.Base.{ℕ, ◌+◌, ◌-◌, ◌<◌, ◌≤◌, ◌≡◌, List, [], ◌∷◌, ◌++◌, ltb, if◌then◌else◌, arith}
use cpp_os.Machine.{Write, outb, sent}

-- `PICM_COMMAND`, `PICM_DATA`, `PICS_COMMAND` and `PICS_DATA`
abbrev pub picm_command : ℕ
picm_command = 0x20

abbrev pub picm_data : ℕ
picm_data = 0x21

abbrev pub pics_command : ℕ
pics_command = 0xa0

abbrev pub pics_data : ℕ
pics_data = 0xa1

-- `PICM_OFFSET` and `PICS_OFFSET`
abbrev pub picm_offset : ℕ
picm_offset = 32

abbrev pub pics_offset : ℕ
pics_offset = 40

-- `void pic_remap (u8 m_offset, u8 s_offset)`; `s1` and `s2` are the masks that are read first.
unfoldable pub pic_remap : ℕ → ℕ → ℕ → ℕ → List Write
pic_remap m_offset s_offset s1 s2 =
    outb picm_command 0x11
    ∷ outb pics_command 0x11
    ∷ outb picm_data m_offset
    ∷ outb pics_data s_offset
    ∷ outb picm_data 4
    ∷ outb pics_data 2
    ∷ outb picm_data 1
    ∷ outb pics_data 1
    ∷ outb picm_data s1
    ∷ outb pics_data s2
    ∷ []

-- `void pic_eoi (u8 irq)`. The difference is an `int` in the code; below 32 it is negative, so not
-- above 7, as 0 is here.
unfoldable pub pic_eoi : ℕ → List Write
pic_eoi irq =
    let slave = (if ltb 7 (irq - picm_offset) then outb pics_command 0x20 ∷ [] else []) in
    slave ++ (outb picm_command 0x20 ∷ [])

-- `init` of src/init.cpp gives both controllers the same offset.
unfoldable pub init_remap : ℕ → ℕ → List Write
init_remap s1 s2 = pic_remap picm_offset picm_offset s1 s2

-- The first byte that a controller is sent on its data port is its offset.
abbrev offset_of : List ℕ → ℕ
offset_of [] = 0
offset_of (x ∷ xs) = x

-- The vector of an interrupt line: lines 0 to 7 are the master's and 8 to 15 the slave's, each
-- counted from the offset that the controller was sent.
abbrev pub vector : List Write → ℕ → ℕ
vector ws line =
    if ltb line 8
    then offset_of (sent picm_data ws) + line
    else offset_of (sent pics_data ws) + (line - 8)

-- After a remap to the two offsets of int.hpp, the end of an interrupt of any of the 16 lines is
-- told to the slave exactly if the line is one of its own. `init` sends both controllers the master's
-- offset: then the slave is never told, and each of its lines has the vector of a line of the master.
pub pic_eoi_slave :
    (s1 s2 line : ℕ)
    → line < 16
    → (sent pics_command (pic_eoi (vector (pic_remap picm_offset pics_offset s1 s2) line))
        ≡ (if ltb line 8 then [] else 0x20 ∷ []))
      × (sent pics_command (pic_eoi (vector (init_remap s1 s2) line)) ≡ [])
      × (8 ≤ line → vector (init_remap s1 s2) line ≡ vector (init_remap s1 s2) (line - 8))
unfolding pic_eoi pic_remap init_remap
pic_eoi_slave s1 s2 line h = ground arith
