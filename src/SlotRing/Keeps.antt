-- ===== src/SlotRing/Keeps.antt =====
-- Each step of the producer and the consumer while the semaphores exist keeps the window of slots.
use sistemi_operativi.Prelude.{
  ℕ, suc, ◌+◌, ◌%◌, ◌<◌, ◌≡◌, refl, ap, ◌∙◌, true, arith, update, dec_lt,
}
use sistemi_operativi.SlotRing.{p_wait, p_write, p_post, c_wait, c_read, c_post, System, check}
use sistemi_operativi.SlotRing.Slots.{slot_ne, slot_next, slot_behind}
use sistemi_operativi.SlotRing.Invariant.{Running}

module _ (size last : ℕ) where
  module _ (s : System) (r : Running size last s) (pos : 0 < size) where
    -- The semaphore of the producer's slot is up only if the window has room, and is then 1.
    pub room_of_free :
        s.producer ≡ p_wait
        → 0 < s.sem_free_slot.count s.p_index
        → (s.p_data < s.c_data + size) × (s.sem_free_slot.count s.p_index ≡ 1)
    room_of_free e posted = elim (dec_lt s.p_data (s.c_data + size)) [
      | yes l ↦ (l, rw r.p_slot (r.free s.p_data (ground arith) l))
      | no ge ↦
          let full : s.p_data ≡ s.c_data + size = omega (arith, r.room) in
          absurd (
            omega (
              arith,
              ap s.sem_free_slot.count r.p_slot,
              ap s.sem_free_slot.count (slot_behind size s.c_data s.p_data full),
              r.taken s.c_data (omega arith) (omega (arith, r.room)),
            ))
    ]

    pub p_wait_keeps :
        (k : ℕ)
        → s.producer ≡ p_wait
        → s.sem_free_slot.count s.p_index ≡ suc k
        → Running size last (record s {
          sem_free_slot = record {
            exists = true;
            count = update s.sem_free_slot.count s.p_index k;
          };
          producer = p_write;
        })
    p_wait_keeps n e posted = record {
      p_slot = r.p_slot;
      c_slot = r.c_slot;
      order = r.order;
      room = omega (arith, room_of_free e (omega arith));
      free = λ k l h. ground (arith, r.free k, slot_ne size s.p_data k);
      taken = λ k l h. ground (arith, r.taken k, room_of_free e (omega arith));
      available = r.available;
      absent = r.absent;
      items = r.items;
      written = λ e. absurd (cc);
      before = r.before;
      both = (refl, r.both.1);
    }

    pub p_write_keeps :
        s.producer ≡ p_write
        → Running size last (record s { v = update s.v s.p_index s.p_data; producer = p_post })
    p_write_keeps e = record {
      p_slot = r.p_slot;
      c_slot = r.c_slot;
      order = r.order;
      room = ground (arith, r.room);
      free = λ k l h. ground (arith, r.free k);
      taken = λ k l h. ground (arith, r.taken k);
      available = r.available;
      absent = r.absent;
      items = λ k l h. ground (arith, r.items k, r.room, slot_ne size k s.p_data);
      written = λ e. ground arith;
      before = r.before;
      both = r.both;
    }

    pub p_post_keeps :
        s.producer ≡ p_post
        → Running size last (record s {
          sem_available_item = record {
            exists = true;
            count =
                update s.sem_available_item.count s.p_index
                  (s.sem_available_item.count s.p_index + 1);
          };
          p_index = (s.p_index + 1) % size;
          p_data = s.p_data + 1;
          producer = p_wait;
        })
    p_post_keeps e = record {
      p_slot = ap (λ n. (n + 1) % size) r.p_slot ∙ slot_next size s.p_data;
      c_slot = r.c_slot;
      order = omega (arith, r.order);
      room = ground (arith, r.room);
      free = λ k l h. ground (arith, r.free k);
      taken = λ k l h. ground (arith, r.taken k);
      available = λ k l h. ground (arith, r.available k, r.absent s.p_data, r.room);
      absent = λ k l h. ground (arith, r.absent k, r.order, slot_ne size s.p_data k);
      items = λ k l h. ground (arith, r.items k, r.written e);
      written = λ e. absurd (cc);
      before = r.before;
      both = (r.both.0, refl);
    }

    -- The semaphore of the consumer's slot is up only if its item is produced, and is then 1.
    pub item_of_available :
        s.consumer ≡ c_wait
        → 0 < s.sem_available_item.count s.c_index
        → (s.c_data < s.p_data) × (s.sem_available_item.count s.c_index ≡ 1)
    item_of_available e posted = ground (arith, r.order, r.absent s.c_data, r.available s.c_data)

    pub c_wait_keeps :
        (k : ℕ)
        → s.consumer ≡ c_wait
        → s.sem_available_item.count s.c_index ≡ suc k
        → Running size last (record s {
          sem_available_item = record {
            exists = true;
            count = update s.sem_available_item.count s.c_index k;
          };
          consumer = c_read;
        })
    c_wait_keeps n e posted = record {
      p_slot = r.p_slot;
      c_slot = r.c_slot;
      order = omega (arith, item_of_available e (omega arith));
      room = r.room;
      free = r.free;
      taken = r.taken;
      available = λ k l h. ground (arith, r.available k, r.room, slot_ne size s.c_data k);
      absent = λ k l h.
          ground
            (arith, r.absent k, slot_behind size s.c_data k, item_of_available e (omega arith));
      items = r.items;
      written = r.written;
      before = ground (arith, r.before);
      both = (r.both.0, refl);
    }

    -- The consumer reads the item that it expects.
    pub read_lem : s.consumer ≡ c_read → s.v s.c_index ≡ s.c_data
    read_lem e = rw r.c_slot (r.items s.c_data (omega arith) (ground (arith, r.order)))

    pub c_read_keeps :
        s.consumer ≡ c_read
        → Running size last (record s { consumer = check size last (s.v s.c_index) s.c_data })
    unfolding check
    c_read_keeps e = rw (read_lem e) (record {
      p_slot = r.p_slot;
      c_slot = r.c_slot;
      order = ground (arith, r.order);
      room = r.room;
      free = r.free;
      taken = r.taken;
      available = λ k l h. ground (arith, r.available k);
      absent = λ k l h. ground (arith, r.absent k);
      items = r.items;
      written = r.written;
      before = ground (arith, r.before);
      both = r.both;
    })

    pub c_post_keeps :
        s.consumer ≡ c_post
        → Running size last (record s {
          sem_free_slot = record {
            exists = true;
            count = update s.sem_free_slot.count s.c_index (s.sem_free_slot.count s.c_index + 1);
          };
          c_index = (s.c_index + 1) % size;
          c_data = s.c_data + 1;
          consumer = c_wait;
        })
    c_post_keeps e = record {
      p_slot = r.p_slot;
      c_slot = ap (λ n. (n + 1) % size) r.c_slot ∙ slot_next size s.c_data;
      order = ground (arith, r.order);
      room = omega (arith, r.room);
      free = λ k l h. elim (dec_lt k (s.c_data + size)) [
        | yes inside ↦ ground (arith, r.free k, r.order, slot_ne size s.c_data k)
        | no behind ↦ ground (arith, slot_behind size s.c_data k, r.taken s.c_data, r.order, r.room)
      ];
      taken = λ k l h. ground (arith, r.taken k, r.room, slot_ne size s.c_data k);
      available = λ k l h. ground (arith, r.available k);
      absent = λ k l h. ground (arith, r.absent k);
      items = λ k l h. r.items k (omega arith) h;
      written = r.written;
      before = ground (arith, r.before);
      both = (refl, r.both.1);
    }
