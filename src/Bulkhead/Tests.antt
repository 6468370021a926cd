-- ===== src/Bulkhead/Tests.antt =====
-- src/network_mcp/connection.py: blocks at a bulkhead of two slots for each vendor.
use network_mcp.Base.{◌+◌, false, str_discrete, [], ◌∷◌, ◌≡◌, refl, some}
use network_mcp.Dict
use network_mcp.Bulkhead.{init, acquire, release, get_available, enter_slot, leave_slot}
use network_mcp.Bulkhead.Slots.{
  Slots, Reach, here, next, begin, leave, new_slots, held, free, Reach-balance,
}

abbrev one_block : Slots
one_block = record { bulkhead = (acquire "arista" (init 2)).0; holders = "arista" ∷ [] }

abbrev two_blocks : Slots
two_blocks = record {
  bulkhead = (acquire "cisco" one_block.bulkhead).0;
  holders = "cisco" ∷ "arista" ∷ [];
}

abbrev first_left : Slots
first_left = record { bulkhead = release "arista" two_blocks.bulkhead; holders = "cisco" ∷ [] }

first_left_reached : Reach (new_slots 2) first_left
unfolding new_slots acquire init str_discrete Dict.get Dict.put
first_left_reached =
    next (next (next here (begin (new_slots 2) "arista" refl)) (begin one_block "cisco" refl))
      (leave two_blocks "arista" ("cisco" ∷ []) [] refl)

Reach-balance_example : held "cisco" ("cisco" ∷ []) + free "cisco" first_left.bulkhead ≡ 2
Reach-balance_example = Reach-balance 2 first_left_reached "cisco"

slots_left : (get_available "cisco" first_left.bulkhead).1 ≡ 1
unfolding get_available release acquire init str_discrete Dict.get Dict.put
slots_left = refl

third_block : (enter_slot "arista" (some (acquire "arista" one_block.bulkhead).0)).1 ≡ false
unfolding enter_slot acquire init str_discrete Dict.get Dict.put
third_block = refl

end_of_block :
    leave_slot "arista" (some one_block.bulkhead)
    ≡ some (record { per_vendor_limit = 2; semaphores = ("arista", 2) ∷ [] })
unfolding leave_slot release acquire init str_discrete Dict.get Dict.put
end_of_block = refl
