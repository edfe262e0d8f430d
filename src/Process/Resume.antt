-- ===== src/Process/Resume.antt =====
-- A task that was switched away from continues where it was.
use late_os.Common.{ℕ, ◌≡◌, ◌≢◌, refl, sym, ap, ◌∙◌, update, update_self, update-ne}
use late_os.Process.{Task, Kernel, Layout}
use late_os.Process.Schedule.{switch_to, save_rsp, save_rip}
use late_os.Process.Round.{switch_to-keeps}

-- The saved registers of the task that is left.
switch_to-saves :
    (layout : Layout) (n : ℕ) (k : Kernel)
    → ((switch_to layout n k).task_queue k.current_task).regs
      ≡ record { rsp = k.cpu.rsp; rip = layout.resume }
unfolding switch_to
switch_to-saves layout n k =
    let q = update k.task_queue k.current_task (save_rsp k.cpu.rsp (k.task_queue k.current_task)) in
    ap (λ t. t.regs) (update_self q k.current_task _)
    ∙ unfold save_rip in
      ap (λ (t : Task). record { rsp = t.regs.rsp; rip = layout.resume })
        (update_self k.task_queue k.current_task _)
      ∙ unfold save_rsp in refl

-- The registers that a switch to another task loads.
switch_to-loads :
    (layout : Layout) (n : ℕ) (k : Kernel)
    → n ≢ k.current_task
    → (switch_to layout n k).cpu ≡ record {
      rsp = (k.task_queue n).regs.rsp;
      rip = (k.task_queue n).regs.rip;
      cr3 = (k.task_queue n).pml4e;
      tss_rsp0 = layout.kstack_top n;
    }
unfolding switch_to
switch_to-loads layout n k ne =
    let q = update k.task_queue k.current_task (save_rsp k.cpu.rsp (k.task_queue k.current_task)) in
    let once : q n ≡ k.task_queue n = update-ne k.task_queue k.current_task n _ (λ e. ne (sym e)) in
    let again =
      update-ne q k.current_task n (save_rip layout.resume (q k.current_task)) (λ e. ne (sym e)) in
    rw (again, once)

-- A task that was switched away from, and whose entry nothing has touched since, gets back its stack
-- pointer and its address space, continues behind the switch, and enters the kernel on its own stack.
pub switch_to-resumes :
    (layout : Layout) (n : ℕ) (k later : Kernel)
    → later.task_queue k.current_task ≡ (switch_to layout n k).task_queue k.current_task
    → later.current_task ≢ k.current_task
    → (switch_to layout k.current_task later).cpu ≡ record {
      rsp = k.cpu.rsp;
      rip = layout.resume;
      cr3 = (k.task_queue k.current_task).pml4e;
      tss_rsp0 = layout.kstack_top k.current_task;
    }
switch_to-resumes layout n k later e ne =
    let i = k.current_task in
    switch_to-loads layout i later (λ h. ne (sym h))
    ∙ rw (e, switch_to-saves layout n k, switch_to-keeps (λ t. t.pml4e) (λ t r. refl) layout n k i)
